-- ===== src/Control/Connection/Commands.antt =====
-- What a client gets for its commands.
use meteodata_server.Base.{ℕ, ◌≡◌, ◌∙◌, refl, ap, false, List, [], ◌∷◌, ◌++◌, Bytes, ◌==◌, All}
use meteodata_server.Control.Connection.{
  ControlConnector, Wait, no_wait, flush_delay, receives, sends, step, handle_event, handle_in,
  on_command, run_query, send_data, recv_data, flush_socket, first_line, after_line, answer_line,
}
use meteodata_server.Control.Connection.Invariant.{waiting}

abbrev pub IsLine : Bytes → Type 0
IsLine = All (λ b. (b == 10) ≡ false)

pub first_line-append : (line rest : Bytes) → IsLine line → first_line (line ++ (10 ∷ rest)) ≡ line
first_line-append [] rest h = refl
first_line-append (b ∷ bs) rest (h, more) = rw h (ap (◌∷◌ b) (first_line-append bs rest more))

module _ (handle_query : Bytes → Bytes) where
  on_command_lem :
      (b : ℕ) (query : Bytes) (c : ControlConnector)
      → first_line c.query_buffer ≡ b ∷ query
      → on_command handle_query c
        ≡ run_query handle_query
            (b ∷ query)
            (after_line c.query_buffer)
            (record c { answer_buffer = [] })
  unfolding on_command
  on_command_lem b query c e = rw (on_command, e) refl

  -- A connection that reads, and receives the end of a line that is not empty, with anything after it: the
  -- command of the line is run and answered by a line, what came after it is lost, and the next command
  -- is read.
  pub command_answered :
      (timer : Wait) (received bytes : Bytes) (answer : Bytes) (answers : List Bytes) (b : ℕ)
      (query rest : Bytes)
      → IsLine (b ∷ query)
      → received ++ bytes ≡ (b ∷ query) ++ (10 ∷ rest)
      → step handle_query sends
          (step handle_query (receives bytes) (waiting timer received answer answers))
        ≡ waiting flush_delay [] [] (answer_line (handle_query (b ∷ query)) ∷ answers)
  unfolding step handle_event handle_in flush_socket recv_data run_query send_data
  command_answered timer received bytes answer answers b query rest h e =
      let c = record (waiting no_wait (received ++ bytes) answer answers) { reading = false } in
      ap (step handle_query sends)
        (on_command_lem b query c (ap first_line e ∙ first_line-append (b ∷ query) rest h))
