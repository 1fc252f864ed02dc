-- ===== src/Control/Connection.antt =====
-- The connection of a client of the control interface (src/control/control_connector.cpp and its header). An
-- operation that is cancelled reports so and its handler returns at once: it is dropped.
pub mod Invariant
pub mod Commands
use meteodata_server.Base.{
  ℕ, zero, suc, Bool, true, false, List, [], ◌∷◌, ◌++◌, Bytes, length, drop, ◌==◌, if◌then◌else◌,
}

pub data State : Type 0 where
  starting waiting_command sending_answer stopped : State

-- What a wait of the timer is for.
pub data Wait : Type 0 where
  no_wait answer_deadline flush_delay : Wait

pub data Failure : Type 0 where
  eof other_error : Failure

pub data ErrorCode : Type 0 where
  success timed_out : ErrorCode
  failed : Failure → ErrorCode

-- The object, with the operations in progress on its socket and the answers written to the client, the
-- latest first.
pub record ControlConnector : Type 0 where
  pub current_state : State
  pub timer : Wait
  pub is_open : Bool
  pub reading : Bool
  pub sending : Bool
  pub query_buffer : Bytes
  pub answer_buffer : Bytes
  pub answers : List Bytes

-- stop
unfoldable pub stop : ControlConnector → ControlConnector
stop c = record c {
  current_state = stopped;
  timer = no_wait;
  reading = if c.is_open then false else c.reading;
  sending = if c.is_open then false else c.sending;
  is_open = false;
}

-- sendData, with its countdown
unfoldable pub send_data : ControlConnector → ControlConnector
send_data c = record c { timer = answer_deadline; sending = true }

-- recvData
unfoldable pub recv_data : ControlConnector → ControlConnector
recv_data c = record c { reading = true }

-- flushSocket
unfoldable pub flush_socket : ControlConnector → ControlConnector
flush_socket c = record c { timer = flush_delay }

-- handleGenericErrors
unfoldable pub handle_generic_errors : ErrorCode → ControlConnector → ControlConnector
unfolding stop
handle_generic_errors success c = c
handle_generic_errors timed_out c = stop c
handle_generic_errors (failed eof) c = stop c
handle_generic_errors (failed other_error) c = stop c

-- `getline`: the first line, and what follows its end.
abbrev pub first_line : Bytes → Bytes
first_line [] = []
first_line (b ∷ bs) = let more = first_line bs in if b == 10 then [] else b ∷ more

abbrev pub after_line : Bytes → Bytes
after_line [] = []
after_line (b ∷ bs) = let later = after_line bs in if b == 10 then bs else later

-- The answer, ended by a line feed.
abbrev pub ends_line : Bytes → Bool
ends_line [] = false
ends_line (b ∷ []) = b == 10
ends_line (b ∷ c ∷ rest) = ends_line (c ∷ rest)

abbrev pub answer_line : Bytes → Bytes
answer_line answer = if ends_line answer then answer else answer ++ (10 ∷ [])

-- What completes: a reading with the bytes received, up to some line feed, or its failure; the sending of
-- an answer, or its failure; the wait of the timer.
pub data Input : Type 0 where
  receives : Bytes → Input
  fails_reading : Failure → Input
  sends : Input
  fails_sending : Failure → Input
  timer_expires : Input

module _ (handle_query : Bytes → Bytes) where
  -- The command of a line that is not empty: besides the line, as many characters are consumed.
  unfoldable pub run_query : Bytes → Bytes → ControlConnector → ControlConnector
  unfolding send_data
  run_query query rest c = send_data (record c {
    query_buffer = drop (length query) rest;
    answer_buffer = answer_line (handle_query query);
    current_state = sending_answer;
  })

  unfoldable pub on_command : ControlConnector → ControlConnector
  unfolding run_query recv_data
  on_command c = elim (first_line c.query_buffer) [
    | [] ↦ recv_data (record c { answer_buffer = []; query_buffer = after_line c.query_buffer })
    | b ∷ query ↦
        run_query (b ∷ query) (after_line c.query_buffer) (record c { answer_buffer = [] })
  ]

  -- handleEvent, by the state
  unfoldable pub handle_in : State → ErrorCode → ControlConnector → ControlConnector
  unfolding on_command recv_data flush_socket handle_generic_errors
  handle_in starting e c = recv_data (record c { current_state = waiting_command })
  handle_in waiting_command success c = on_command c
  handle_in waiting_command e c = handle_generic_errors e c
  handle_in sending_answer success c =
      recv_data
        (record (flush_socket (record c { query_buffer = [] })) { current_state = waiting_command })
  handle_in sending_answer e c = handle_generic_errors e c
  handle_in stopped e c = c

  unfoldable pub handle_event : ErrorCode → ControlConnector → ControlConnector
  unfolding handle_in
  handle_event e c = handle_in c.current_state e c

  -- start
  unfoldable pub start : ControlConnector → ControlConnector
  unfolding handle_event
  start c = handle_event success (record c { current_state = starting })

  -- checkDeadline, at the deadline and not cancelled
  unfoldable pub check_deadline : ControlConnector → ControlConnector
  unfolding handle_event
  check_deadline c = handle_event timed_out (record c {
    reading = if c.is_open then false else c.reading;
    sending = if c.is_open then false else c.sending;
  })

  -- The handler of recvData
  abbrev pub on_read : ErrorCode → ControlConnector → ControlConnector
  on_read e c = handle_event e (record c { timer = no_wait })

  -- The handler of sendData; all that was in the buffer has been written.
  abbrev pub on_sent : ControlConnector → ControlConnector
  on_sent c =
      handle_event success
        (record c { timer = no_wait; answers = c.answer_buffer ∷ c.answers; answer_buffer = [] })

  abbrev pub on_timer : Wait → ControlConnector → ControlConnector
  on_timer no_wait c = c
  on_timer answer_deadline c = check_deadline (record c { timer = no_wait })
  on_timer flush_delay c = record c { timer = no_wait; current_state = waiting_command }

  unfoldable pub step : Input → ControlConnector → ControlConnector
  unfolding handle_event check_deadline
  step (receives bytes) c =
      if c.reading
      then on_read success (record c { reading = false; query_buffer = c.query_buffer ++ bytes })
      else c
  step (fails_reading e) c =
      if c.reading then on_read (failed e) (record c { reading = false }) else c
  step sends c = if c.sending then on_sent (record c { sending = false }) else c
  step (fails_sending e) c =
      if c.sending
      then handle_event (failed e) (record c { sending = false; timer = no_wait })
      else c
  step timer_expires c = on_timer c.timer c
