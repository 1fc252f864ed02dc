-- ===== src/Control/Connection/Invariant.antt =====
-- A connection always has one operation in progress, or is stopped.
use meteodata_server.Base.{◌≡◌, refl, Bool, true, false, List, [], ◌∷◌, ◌++◌, Bytes, arith}
use meteodata_server.Control.Connection.{
  waiting_command, sending_answer, stopped, Wait, no_wait, answer_deadline, flush_delay,
  ControlConnector, Input, receives, fails_reading, sends, fails_sending, timer_expires, eof,
  other_error, step, start, stop, handle_event, handle_in, on_command, run_query, send_data,
  recv_data, flush_socket, handle_generic_errors, check_deadline, first_line, after_line,
}

abbrev is_deadline : Wait → Bool
is_deadline answer_deadline = true
is_deadline w = false

-- The connections that wait for a command, that send an answer before a deadline, and that are stopped.
abbrev pub waiting : Wait → Bytes → Bytes → List Bytes → ControlConnector
waiting timer query_buffer answer_buffer answers = record {
  current_state = waiting_command;
  timer = timer;
  is_open = true;
  reading = true;
  sending = false;
  query_buffer = query_buffer;
  answer_buffer = answer_buffer;
  answers = answers;
}

abbrev answering : Bytes → Bytes → List Bytes → ControlConnector
answering query_buffer answer_buffer answers = record {
  current_state = sending_answer;
  timer = answer_deadline;
  is_open = true;
  reading = false;
  sending = true;
  query_buffer = query_buffer;
  answer_buffer = answer_buffer;
  answers = answers;
}

abbrev pub at_rest : Bytes → Bytes → List Bytes → ControlConnector
at_rest query_buffer answer_buffer answers = record {
  current_state = stopped;
  timer = no_wait;
  is_open = false;
  reading = false;
  sending = false;
  query_buffer = query_buffer;
  answer_buffer = answer_buffer;
  answers = answers;
}

pub data IsSound : ControlConnector → Type 0 where
  waits :
      (t : Wait) (q a : Bytes) (l : List Bytes) → is_deadline t ≡ false → IsSound (waiting t q a l)
  answers : (q a : Bytes) (l : List Bytes) → IsSound (answering q a l)
  rests : (q a : Bytes) (l : List Bytes) → IsSound (at_rest q a l)

module _ (handle_query : Bytes → Bytes) where
  on_command-IsSound :
      (q a : Bytes) (l : List Bytes) (line : Bytes)
      → first_line q ≡ line
      → IsSound (on_command handle_query (record (waiting no_wait q a l) { reading = false }))
  unfolding on_command run_query send_data recv_data
  on_command-IsSound q a l [] e = rw e (waits no_wait (after_line q) [] l refl)
  on_command-IsSound q a l (b ∷ query) e = rw e (answers _ _ l)

  step-IsSound : (i : Input) (c : ControlConnector) → IsSound c → IsSound (step handle_query i c)
  unfolding step handle_event handle_in handle_generic_errors stop flush_socket recv_data
      check_deadline
  step-IsSound (receives bytes) c (waits t q a l h) =
      on_command-IsSound (q ++ bytes) a l (first_line (q ++ bytes)) refl
  step-IsSound (fails_reading eof) c (waits t q a l h) = rests q a l
  step-IsSound (fails_reading other_error) c (waits t q a l h) = rests q a l
  step-IsSound sends c (waits t q a l h) = waits t q a l h
  step-IsSound (fails_sending f) c (waits t q a l h) = waits t q a l h
  step-IsSound timer_expires c (waits no_wait q a l h) = waits no_wait q a l h
  step-IsSound timer_expires c (waits answer_deadline q a l h) = ground (arith, h)
  step-IsSound timer_expires c (waits flush_delay q a l h) = waits no_wait q a l refl
  step-IsSound (receives bytes) c (answers q a l) = answers q a l
  step-IsSound (fails_reading f) c (answers q a l) = answers q a l
  step-IsSound sends c (answers q a l) = waits flush_delay [] [] (a ∷ l) refl
  step-IsSound (fails_sending eof) c (answers q a l) = rests q a l
  step-IsSound (fails_sending other_error) c (answers q a l) = rests q a l
  step-IsSound timer_expires c (answers q a l) = rests q a l
  step-IsSound (receives bytes) c (rests q a l) = rests q a l
  step-IsSound (fails_reading f) c (rests q a l) = rests q a l
  step-IsSound sends c (rests q a l) = rests q a l
  step-IsSound (fails_sending f) c (rests q a l) = rests q a l
  step-IsSound timer_expires c (rests q a l) = rests q a l

  abbrev pub run : List Input → ControlConnector → ControlConnector
  run [] c = c
  run (i ∷ rest) c = run rest (step handle_query i c)

  run-IsSound : (inputs : List Input) (c : ControlConnector) → IsSound c → IsSound (run inputs c)
  run-IsSound [] c h = h
  run-IsSound (i ∷ rest) c h = run-IsSound rest (step handle_query i c) (step-IsSound i c h)

  -- A new connection, whose socket is open, once it is started and whatever happens, either reads a command
  -- and nothing else, or sends an answer under a deadline and does nothing else, or is stopped with its
  -- socket closed, no operation in progress and no wait.
  pub started-IsSound :
      (inputs : List Input) (q a : Bytes) (l : List Bytes)
      → IsSound (run inputs (start handle_query (record (at_rest q a l) { is_open = true })))
  unfolding start handle_event handle_in recv_data
  started-IsSound inputs q a l = run-IsSound inputs _ (waits no_wait q a l refl)
