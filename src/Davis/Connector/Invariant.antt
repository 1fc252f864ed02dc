-- ===== src/Davis/Connector/Invariant.antt =====
-- What holds of a connector between two events, as long as it is not reloaded.
pub mod Identify
pub mod Download
pub mod SetTime
pub mod Steps
use meteodata_server.Base.{
  ◌≤◌, ◌≡◌, ◌≢◌, ◌⊎◌, inl, inr, Bool, true, false, ◌&&◌, ◌||◌, arith, Bool-cases, sym,
}
use mathlib.Core.Bool.{false≢true}
use meteodata_server.Davis.Connector.State.{
  State, starting, waiting_next_measure_tick, sending_wake_up_station, waiting_echo_station,
  sending_req_station, waiting_ack_station, waiting_data_station, sending_req_main_mode,
  waiting_ack_main_mode, sending_req_timezone, waiting_ack_timezone, waiting_data_timezone,
  sending_wake_up_archive, waiting_echo_archive, sending_req_archive, waiting_ack_archive,
  sending_archive_params, waiting_ack_archive_params, waiting_archive_nb_pages,
  sending_ack_archive_download, sending_abort_archive_download, waiting_archive_page,
  sending_archive_page_answer, sending_wake_up_settime, waiting_echo_settime, sending_settime,
  waiting_ack_settime, sending_settime_params, waiting_ack_time_set, stopped, ErrorCode, success,
  operation_canceled, timed_out, TimerTask, no_wait, deadline, flush_and_retry, into_coords,
  into_timezone_buffer, into_archive_size, into_archive_page, IoTask, no_io, writing,
  reading_wake_up, reading_ok, reading_ack, reading_data, Connector,
}
use meteodata_server.Davis.Connector.Actions.{stop, is_success}

-- The operation on the socket that each state waits for.
abbrev pub expects : State → IoTask → Bool
expects starting io = false
expects waiting_next_measure_tick no_io = true
expects sending_wake_up_station (writing _) = true
expects waiting_echo_station reading_wake_up = true
expects sending_req_station (writing _) = true
expects waiting_ack_station reading_ack = true
expects waiting_data_station (reading_data into_coords) = true
expects sending_req_main_mode (writing _) = true
expects waiting_ack_main_mode reading_ok = true
expects sending_req_timezone (writing _) = true
expects waiting_ack_timezone reading_ack = true
expects waiting_data_timezone (reading_data into_timezone_buffer) = true
expects sending_wake_up_archive (writing _) = true
expects waiting_echo_archive reading_wake_up = true
expects sending_req_archive (writing _) = true
expects waiting_ack_archive reading_ack = true
expects sending_archive_params (writing _) = true
expects waiting_ack_archive_params reading_ack = true
expects waiting_archive_nb_pages (reading_data into_archive_size) = true
expects sending_ack_archive_download (writing _) = true
expects sending_abort_archive_download (writing _) = true
expects waiting_archive_page (reading_data into_archive_page) = true
expects sending_archive_page_answer (writing _) = true
expects sending_wake_up_settime (writing _) = true
expects waiting_echo_settime reading_wake_up = true
expects sending_settime (writing _) = true
expects waiting_ack_settime reading_ack = true
expects sending_settime_params (writing _) = true
expects waiting_ack_time_set reading_ack = true
expects _ _ = false

-- The states that a retry goes back to.
abbrev pub is_restart_state : State → Bool
is_restart_state sending_wake_up_station = true
is_restart_state sending_req_station = true
is_restart_state sending_req_main_mode = true
is_restart_state sending_req_timezone = true
is_restart_state sending_wake_up_archive = true
is_restart_state sending_req_archive = true
is_restart_state sending_wake_up_settime = true
is_restart_state sending_settime = true
is_restart_state _ = false

abbrev pub is_no_io : IoTask → Bool
is_no_io no_io = true
is_no_io _ = false

-- A wait is in progress, with the operation that the state expects or before a retry.
abbrev pub is_waiting : TimerTask → State → IoTask → Bool
is_waiting no_wait s io = false
is_waiting (deadline _) s io = expects s io
is_waiting (flush_and_retry r _) s io = is_restart_state r && is_no_io io

abbrev pub is_retry : TimerTask → Bool
is_retry (flush_and_retry _ _) = true
is_retry _ = false

abbrev pub is_stopped : State → Bool
is_stopped stopped = true
is_stopped _ = false

pub record IsSound (c : Connector) : Type 0 where
  pub waits : (is_stopped c.state || is_waiting c.timer c.state c.io) ≡ true
  pub started : c.state ≢ starting
  pub closed : c.sock_open ≡ false → (c.state ≡ stopped) ⊎ (c.state ≡ sending_archive_page_answer)
  pub tick : c.state ≡ waiting_next_measure_tick → c.timeouts ≡ 0
  pub few_timeouts : c.state ≢ stopped → c.timeouts ≤ 4
  pub few_errors : c.state ≢ stopped → c.transmission_errors ≤ 100
  pub stopped_closed : c.state ≡ stopped → c.sock_open ≡ false
  pub retry_open : is_retry c.timer ≡ true → c.sock_open ≡ true

-- What a handler starts from: the completed wait and operation are gone.
pub record IsReady (e : ErrorCode) (c : Connector) : Type 0 where
  pub no_timer : c.timer ≡ no_wait
  pub not_canceled : e ≢ operation_canceled
  pub started : c.state ≢ starting
  pub no_operation : c.sock_open ≡ true → c.io ≡ no_io
  pub closed :
      c.sock_open ≡ false
      → (c.state ≡ stopped) ⊎ ((c.state ≡ sending_archive_page_answer) × (is_success e ≡ false))
  pub tick : c.state ≡ waiting_next_measure_tick → e ≡ timed_out
  pub few_timeouts : c.state ≢ stopped → c.timeouts ≤ 5
  pub fewer_timeouts : e ≢ timed_out → c.state ≢ stopped → c.timeouts ≤ 4
  pub tick_timeouts : c.state ≡ waiting_next_measure_tick → c.timeouts ≤ 1
  pub few_errors : c.state ≢ stopped → c.transmission_errors ≤ 100
  pub stopped_closed : c.state ≡ stopped → c.sock_open ≡ false

pub stop-IsSound : (c : Connector) → IsSound (stop c)
unfolding stop
stop-IsSound c = ground arith

-- Before a handler that goes on, the socket is open and idle, and the counters are low.
pub record IsOpen (c : Connector) : Type 0 where
  pub io : c.io ≡ no_io
  pub sock_open : c.sock_open ≡ true
  pub few_timeouts : c.timeouts ≤ 4
  pub few_errors : c.transmission_errors ≤ 100

pub success-IsOpen : (c : Connector) → IsReady success c → c.state ≢ stopped → IsOpen c
success-IsOpen c r live = elim (Bool-cases c.sock_open) [
  | inl o ↦ record {
    io = r.no_operation o;
    sock_open = o;
    few_timeouts = r.fewer_timeouts (λ q. cc) live;
    few_errors = r.few_errors live;
  }
  | inr n ↦ absurd (elim (r.closed n) [ inl q ↦ live q | inr q ↦ false≢true (sym q.1) ])
]
