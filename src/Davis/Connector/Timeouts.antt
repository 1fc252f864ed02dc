-- ===== src/Davis/Connector/Timeouts.antt =====
-- How timeouts are counted, and that a silent station is given up.
use meteodata_server.Base.{ℕ, ◌+◌, ◌≤◌, ◌<◌, ◌≡◌, ◌⊎◌, inl, inr, refl, false, arith, List, [], ◌∷◌}
use meteodata_server.Base.{if◌then◌else◌, ap}
use meteodata_server.Time.{DateLib}
use meteodata_server.Davis.Connector.State.{
  State, sending_wake_up_station, waiting_echo_station, sending_req_station, waiting_ack_station,
  waiting_data_station, sending_req_main_mode, sending_req_timezone, waiting_ack_timezone,
  waiting_data_timezone, sending_wake_up_archive, waiting_echo_archive, sending_req_archive,
  waiting_ack_archive, sending_wake_up_settime, waiting_echo_settime, sending_settime,
  waiting_ack_settime, stopped, timed_out, echo_request, no_wait, deadline, flush_and_retry, no_io,
  Connector, World,
}
use meteodata_server.Davis.Connector.Actions.{stop, send_request, flush_socket_and_retry}
use meteodata_server.Davis.Connector.Identify.{
  on_starting, on_sending_wake_up_station, on_waiting_echo_station, on_sending_req_station,
  on_waiting_ack_station, on_waiting_data_station, on_sending_req_main_mode,
  on_waiting_ack_main_mode, on_sending_req_timezone, on_waiting_ack_timezone,
  on_waiting_data_timezone,
}
use meteodata_server.Davis.Connector.Download.{
  on_sending_wake_up_archive, on_waiting_echo_archive, on_sending_req_archive,
  on_waiting_ack_archive, on_sending_archive_params, on_waiting_ack_archive_params,
  on_waiting_archive_nb_pages, on_sending_abort_archive_download, on_waiting_archive_page,
  on_archive_answer_sent,
}
use meteodata_server.Davis.Connector.SetTime.{
  on_waiting_next_measure_tick, on_sending_wake_up_settime, on_waiting_echo_settime,
  on_sending_settime, on_waiting_ack_settime, on_sending_settime_params, on_waiting_ack_time_set,
}
use meteodata_server.Davis.Connector.Machine.{dispatch, expire_timer, Input, timer_expires, step}
use meteodata_server.Base.{◌∙◌, ◌*◌, length, Option, some, none}
use meteodata_server.Davis.Connector.Actions.{handle_generic_errors}
use meteodata_server.Davis.Connector.Machine.{run}
use meteodata_server.Davis.Connector.State.{
  Request, get_station_request, main_mode_request, get_timezone_request, get_archive_request,
  settime_request,
}

-- The states that retry after a timeout, with where they go back to and what they send again.
abbrev pub retry_of : State → Option (State × Request)
retry_of sending_wake_up_station = some (sending_wake_up_station, echo_request)
retry_of waiting_echo_station = some (sending_wake_up_station, echo_request)
retry_of sending_req_station = some (sending_req_station, get_station_request)
retry_of waiting_ack_station = some (sending_req_station, get_station_request)
retry_of waiting_data_station = some (sending_req_station, get_station_request)
retry_of sending_req_main_mode = some (sending_req_main_mode, main_mode_request)
retry_of sending_req_timezone = some (sending_req_timezone, get_timezone_request)
retry_of waiting_ack_timezone = some (sending_req_timezone, get_timezone_request)
retry_of waiting_data_timezone = some (sending_req_timezone, get_timezone_request)
retry_of sending_wake_up_archive = some (sending_wake_up_archive, echo_request)
retry_of waiting_echo_archive = some (sending_wake_up_archive, echo_request)
retry_of sending_req_archive = some (sending_req_archive, get_archive_request)
retry_of waiting_ack_archive = some (sending_req_archive, get_archive_request)
retry_of sending_wake_up_settime = some (sending_wake_up_settime, echo_request)
retry_of waiting_echo_settime = some (sending_wake_up_settime, echo_request)
retry_of sending_settime = some (sending_settime, settime_request)
retry_of waiting_ack_settime = some (sending_settime, settime_request)
retry_of _ = none

-- After a retry the connector is in a state that retries.
retries_again :
    (s : State) {r : State} {q : Request} → retry_of s ≡ some (r, q) → retry_of r ≡ some (r, q)
retries_again sending_wake_up_station h = ground arith
retries_again _ h = ground arith

module _ (lib : DateLib) (w : World) where
  dispatch_timed_out :
      (s : State) (c : Connector) {r : State} {q : Request}
      → retry_of s ≡ some (r, q)
      → dispatch lib w s timed_out c ≡ handle_generic_errors timed_out r q c
  unfolding dispatch on_starting on_sending_wake_up_station on_waiting_echo_station
      on_sending_req_station on_waiting_ack_station on_waiting_data_station on_sending_req_main_mode
      on_waiting_ack_main_mode on_sending_req_timezone on_waiting_ack_timezone
      on_waiting_data_timezone on_sending_wake_up_archive on_waiting_echo_archive
      on_sending_req_archive on_waiting_ack_archive on_sending_archive_params
      on_waiting_ack_archive_params on_waiting_archive_nb_pages on_sending_abort_archive_download
      on_waiting_archive_page on_archive_answer_sent on_waiting_next_measure_tick
      on_sending_wake_up_settime on_waiting_echo_settime on_sending_settime on_waiting_ack_settime
      on_sending_settime_params on_waiting_ack_time_set handle_generic_errors
  dispatch_timed_out sending_wake_up_station c h = ground arith
  dispatch_timed_out _ c h = ground arith

  -- What the deadline leaves for the handler of the state.
  abbrev pub expired : Connector → Connector
  expired c =
      let c' = record c { timeouts = c.timeouts + 1; timer = no_wait } in
      if c'.sock_open then record c' { io = no_io } else c'

  expired-state : (c : Connector) → (expired c).state ≡ c.state
  expired-state c = ground arith

  expired-timeouts : (c : Connector) → (expired c).timeouts ≡ c.timeouts + 1
  expired-timeouts c = ground arith

  pub expired-timer : (c : Connector) → (expired c).timer ≡ no_wait
  expired-timer c = ground arith

  pub step_deadline :
      (c : Connector) {s : ℕ}
      → c.timer ≡ deadline s
      → step lib w timer_expires c ≡ dispatch lib w c.state timed_out (expired c)
  unfolding step expire_timer
  step_deadline c t =
      ap (λ t. expire_timer lib w t c) t
      ∙ ap (λ s. dispatch lib w s timed_out (expired c)) (expired-state c)

  step-expired :
      (c : Connector) {s : ℕ} {r : State} {q : Request}
      → c.timer ≡ deadline s
      → retry_of c.state ≡ some (r, q)
      → step lib w timer_expires c ≡ handle_generic_errors timed_out r q (expired c)
  step-expired c t h = step_deadline c t ∙ dispatch_timed_out c.state (expired c) h

  timed_out_lem :
      (c : Connector) (r : State) (q : Request)
      → let c' = handle_generic_errors timed_out r q c in
        (c'.timeouts ≡ c.timeouts + 1)
        × ((c'.timeouts < 5) × (c'.state ≡ r) × (c'.timer ≡ flush_and_retry r q)
            ⊎ (5 ≤ c'.timeouts)
              × (c'.state ≡ stopped)
              × (c'.timer ≡ no_wait)
              × (c'.sock_open ≡ false))
  unfolding handle_generic_errors stop flush_socket_and_retry
  timed_out_lem c r q = ground arith

  -- In a state that retries after a timeout, a deadline that passes counts as two timeouts; the
  -- connector then either waits to retry from the state that the retry goes back to, when it has
  -- counted fewer than five, or is stopped with its socket closed and nothing left to wait for.
  pub timeout_counts_twice :
      (c : Connector) {s : ℕ} {r : State} {q : Request}
      → c.timer ≡ deadline s
      → retry_of c.state ≡ some (r, q)
      → let c' = step lib w timer_expires c in
        (c'.timeouts ≡ c.timeouts + 2)
        × ((c'.timeouts < 5) × (c'.state ≡ r) × (c'.timer ≡ flush_and_retry r q)
            ⊎ (5 ≤ c'.timeouts)
              × (c'.state ≡ stopped)
              × (c'.timer ≡ no_wait)
              × (c'.sock_open ≡ false))
  timeout_counts_twice c {r} {q} t h = rw (step-expired c t h) (
      let (counts, ends) = timed_out_lem (expired c) r q in
      (counts ∙ (ap (λ n. n + 1) (expired-timeouts c) ∙ omega arith), ends))

  retry_sends :
      (c : Connector) {r : State} {q : Request}
      → c.timer ≡ flush_and_retry r q
      → let c' = step lib w timer_expires c in
        (c'.state ≡ r) × (c'.timer ≡ deadline 6) × (c'.timeouts ≡ c.timeouts)
  unfolding step expire_timer send_request
  retry_sends c {r} {q} t = rw (ap (λ t. expire_timer lib w t c) t) (refl, refl, refl)

-- Only the timer expires, as the station neither answers nor accepts anything: a deadline, then any
-- number of retries and deadlines.
abbrev pub silence : World → List (World × World) → List (World × Input)
silence w [] = (w, timer_expires) ∷ []
silence w ((u, v) ∷ rest) = (w, timer_expires) ∷ (u, timer_expires) ∷ silence v rest

module _ (lib : DateLib) where
  idle_step : (w : World) (c : Connector) → c.timer ≡ no_wait → step lib w timer_expires c ≡ c
  unfolding step expire_timer
  idle_step w c t = ap (λ t. expire_timer lib w t c) t

  idle_run :
      (w : World) (rest : List (World × World)) (c : Connector)
      → c.timer ≡ no_wait
      → run lib (silence w rest) c ≡ c
  unfolding run
  idle_run w [] c t = idle_step w c t
  idle_run w ((u, v) ∷ rest) c t =
      ap (λ d. run lib (silence v rest) (step lib u timer_expires d)) (idle_step w c t)
      ∙ (ap (run lib (silence v rest)) (idle_step u c t) ∙ idle_run v rest c t)

  -- A station that falls silent is given up: in a state that retries after a timeout, when only the
  -- timer expires from then on, over any number of retries that brings the timeouts to five, two for
  -- each deadline, the connector is stopped, its socket closed and nothing left to wait for.
  pub silent_station_stops :
      (w : World) (rest : List (World × World)) (c : Connector) {s : ℕ} {r : State} {q : Request}
      → c.timer ≡ deadline s
      → retry_of c.state ≡ some (r, q)
      → 5 ≤ c.timeouts + 2 * (length rest + 1)
      → let c' = run lib (silence w rest) c in
        (c'.state ≡ stopped) × (c'.timer ≡ no_wait) × (c'.sock_open ≡ false)
  unfolding run
  silent_station_stops w [] c t h e =
      let (n, ends) = timeout_counts_twice lib w c t h in
      elim ends [
        | inl (few, _, _) ↦ absurd (omega (arith, n))
        | inr (_, gone, idle, closed) ↦ (gone, idle, closed)
      ]
  silent_station_stops w ((u, v) ∷ rest) c t h e =
      let (n, ends) = timeout_counts_twice lib w c t h in
      elim ends [
        | inl (few, goes, waits) ↦
            let (state, timer, same) = retry_sends lib u (step lib w timer_expires c) waits in
            silent_station_stops v rest (step lib u timer_expires (step lib w timer_expires c))
              timer (ap retry_of state ∙ retries_again c.state h) (omega (arith, n, same, e))
        | inr (_, gone, idle, closed) ↦
            let d = step lib w timer_expires c in
            rw (ap (run lib (silence v rest)) (idle_step u d idle))
              (rw (idle_run v rest d idle) (gone, idle, closed))
      ]
