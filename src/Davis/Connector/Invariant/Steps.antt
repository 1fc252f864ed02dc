-- ===== src/Davis/Connector/Invariant/Steps.antt =====
-- Every step keeps the connector sound.
use meteodata_server.Base.{
  ℕ, ◌+◌, ◌≤◌, ◌≡◌, ◌≢◌, inl, inr, refl, true, false, arith, Bytes, Bool-cases,
}
use meteodata_server.Base.{if◌then◌else◌, ap, get_or}
use meteodata_server.Davis.Connector.Machine.{receive, read_bytes, is_garbage}
use meteodata_server.Time.{DateLib}
use meteodata_server.Davis.Connector.State.{
  State, starting, waiting_next_measure_tick, sending_wake_up_station, waiting_echo_station,
  sending_req_station, waiting_ack_station, waiting_data_station, sending_req_main_mode,
  waiting_ack_main_mode, sending_req_timezone, waiting_ack_timezone, waiting_data_timezone,
  sending_wake_up_archive, waiting_echo_archive, sending_req_archive, waiting_ack_archive,
  sending_archive_params, waiting_ack_archive_params, waiting_archive_nb_pages,
  sending_ack_archive_download, sending_abort_archive_download, waiting_archive_page,
  sending_archive_page_answer, sending_wake_up_settime, waiting_echo_settime, sending_settime,
  waiting_ack_settime, sending_settime_params, waiting_ack_time_set, stopped, ErrorCode, success,
  operation_canceled, timed_out, other_error, TimerTask, no_wait, deadline, flush_and_retry,
  Destination, into_coords, IoTask, no_io, writing, reading_wake_up, reading_ok, reading_ack,
  reading_data, Connector, World,
}
use meteodata_server.Davis.Connector.Actions.{send_request, recv_ack, is_success}
use meteodata_server.Davis.Connector.Identify.{on_starting}
use meteodata_server.Davis.Connector.Machine.{
  dispatch, start, complete_io, expire_timer, expire_set_time_timer, Input, io_completes,
  timer_expires, set_time_expires, stops, reloads, step,
}
use meteodata_server.Davis.Connector.Invariant.{IsSound, IsReady, stop-IsSound, is_no_io}
use meteodata_server.Davis.Connector.Invariant.Identify.{
  on_sending_wake_up_station-IsSound, on_waiting_echo_station-IsSound,
  on_sending_req_station-IsSound, on_waiting_ack_station-IsSound, on_waiting_data_station-IsSound,
  on_sending_req_main_mode-IsSound, on_waiting_ack_main_mode-IsSound,
  on_sending_req_timezone-IsSound, on_waiting_ack_timezone-IsSound,
  on_waiting_data_timezone-IsSound,
}
use meteodata_server.Davis.Connector.Invariant.Download.{
  on_sending_wake_up_archive-IsSound, on_waiting_echo_archive-IsSound,
  on_sending_req_archive-IsSound, on_waiting_ack_archive-IsSound, on_sending_archive_params-IsSound,
  on_waiting_ack_archive_params-IsSound, on_waiting_archive_nb_pages-IsSound,
  on_sending_abort_archive_download-IsSound, on_archive_answer_sent-IsSound,
  on_waiting_archive_page-IsSound,
}
use meteodata_server.Davis.Connector.Invariant.SetTime.{
  on_waiting_next_measure_tick-IsSound, on_sending_wake_up_settime-IsSound,
  on_waiting_echo_settime-IsSound, on_sending_settime-IsSound, on_waiting_ack_settime-IsSound,
  on_sending_settime_params-IsSound, on_waiting_ack_time_set-IsSound,
}

receive-IsReady :
    (to : Destination) (bytes : Bytes) (e : ErrorCode) (c : Connector)
    → IsReady e c
    → IsReady e (read_bytes e (receive to bytes) c)
receive-IsReady into_coords bytes e c r = ground arith
receive-IsReady _ bytes e c r = ground arith

acknowledge-IsReady :
    (byte : ℕ) (e : ErrorCode) (c : Connector)
    → IsReady e c
    → IsReady e (read_bytes e (λ d. record d { ack_buffer = byte }) c)
acknowledge-IsReady byte e c r = ground arith

recv_ack-IsSound :
    (byte : ℕ) (e : ErrorCode) (c : Connector)
    → c.io ≡ reading_ack
    → IsSound c
    → IsSound (
        recv_ack (
          read_bytes e
            (λ d. record d { ack_buffer = byte })
            (record c { io = no_io; timer = no_wait })))
unfolding recv_ack
recv_ack-IsSound byte e c h s = ground arith

module _ (lib : DateLib) (w : World) where
  dispatch-IsSound :
      (s : State) (e : ErrorCode) (c : Connector)
      → c.state ≡ s
      → IsReady e c
      → IsSound (dispatch lib w s e c)
  unfolding dispatch
  dispatch-IsSound starting e c h r = absurd (r.started h)
  dispatch-IsSound sending_wake_up_station e c h r = on_sending_wake_up_station-IsSound e c h r
  dispatch-IsSound waiting_echo_station e c h r = on_waiting_echo_station-IsSound e c h r
  dispatch-IsSound sending_req_station e c h r = on_sending_req_station-IsSound e c h r
  dispatch-IsSound waiting_ack_station e c h r = on_waiting_ack_station-IsSound e c h r
  dispatch-IsSound waiting_data_station e c h r = on_waiting_data_station-IsSound w e c h r
  dispatch-IsSound sending_req_main_mode e c h r = on_sending_req_main_mode-IsSound e c h r
  dispatch-IsSound waiting_ack_main_mode e c h r = on_waiting_ack_main_mode-IsSound e c h r
  dispatch-IsSound sending_req_timezone e c h r = on_sending_req_timezone-IsSound e c h r
  dispatch-IsSound waiting_ack_timezone e c h r = on_waiting_ack_timezone-IsSound e c h r
  dispatch-IsSound waiting_data_timezone e c h r = on_waiting_data_timezone-IsSound w e c h r
  dispatch-IsSound sending_wake_up_archive e c h r = on_sending_wake_up_archive-IsSound e c h r
  dispatch-IsSound waiting_echo_archive e c h r = on_waiting_echo_archive-IsSound e c h r
  dispatch-IsSound sending_req_archive e c h r = on_sending_req_archive-IsSound e c h r
  dispatch-IsSound waiting_ack_archive e c h r = on_waiting_ack_archive-IsSound lib e c h r
  dispatch-IsSound sending_archive_params e c h r = on_sending_archive_params-IsSound e c h r
  dispatch-IsSound waiting_ack_archive_params e c h r =
      on_waiting_ack_archive_params-IsSound e c h r
  dispatch-IsSound waiting_archive_nb_pages e c h r = on_waiting_archive_nb_pages-IsSound e c h r
  dispatch-IsSound sending_abort_archive_download e c h r =
      on_sending_abort_archive_download-IsSound w e c h r
  dispatch-IsSound waiting_next_measure_tick e c h r =
      on_waiting_next_measure_tick-IsSound w e c h r
  dispatch-IsSound sending_wake_up_settime e c h r = on_sending_wake_up_settime-IsSound e c h r
  dispatch-IsSound waiting_echo_settime e c h r = on_waiting_echo_settime-IsSound e c h r
  dispatch-IsSound sending_settime e c h r = on_sending_settime-IsSound e c h r
  dispatch-IsSound waiting_ack_settime e c h r = on_waiting_ack_settime-IsSound lib w e c h r
  dispatch-IsSound sending_settime_params e c h r = on_sending_settime_params-IsSound e c h r
  dispatch-IsSound waiting_ack_time_set e c h r = on_waiting_ack_time_set-IsSound w e c h r
  dispatch-IsSound sending_ack_archive_download e c h r =
      on_archive_answer_sent-IsSound w e c r (λ q. cc)
  dispatch-IsSound sending_archive_page_answer e c h r =
      on_archive_answer_sent-IsSound w e c r (λ q. cc)
  dispatch-IsSound waiting_archive_page e c h r =
      on_waiting_archive_page-IsSound lib w e c r (λ q. cc)
  dispatch-IsSound stopped e c h r = ground arith

  -- What the environment may do: no operation on a closed socket succeeds, and nobody reloads.
  abbrev pub IsAllowed : Connector → Input → Type 0
  IsAllowed c (io_completes e bytes) = c.sock_open ≡ false → is_success e ≡ false
  IsAllowed c timer_expires = Unit
  IsAllowed c set_time_expires = Unit
  IsAllowed c stops = Unit
  IsAllowed c reloads = ⊥

  -- A completed operation leaves the connector ready for its event, whatever its buffers hold.
  completed-IsReady :
      (e : ErrorCode) (bytes : Bytes) (c : Connector)
      → IsSound c
      → IsAllowed c (io_completes e bytes)
      → e ≢ operation_canceled
      → is_no_io c.io ≡ false
      → IsReady e (record c { io = no_io; timer = no_wait })
  completed-IsReady e bytes c s a n busy = ground arith

  expired-IsReady :
      (n : ℕ) (c : Connector)
      → IsSound c
      → c.timer ≡ deadline n
      → let c' = record c { timeouts = c.timeouts + 1; timer = no_wait } in
        IsReady timed_out (if c'.sock_open then record c' { io = no_io } else c')
  expired-IsReady n c s h = ground arith

  complete_io-IsSound :
      (io : IoTask) (e : ErrorCode) (bytes : Bytes) (c : Connector)
      → c.io ≡ io
      → IsSound c
      → IsAllowed c (io_completes e bytes)
      → e ≢ operation_canceled
      → IsSound (complete_io lib w io e bytes c)
  unfolding complete_io
  complete_io-IsSound no_io e bytes c h s a n = s
  complete_io-IsSound (writing sent) e bytes c h s a n =
      dispatch-IsSound c.state e _ refl (completed-IsReady e bytes c s a n (ap is_no_io h))
  complete_io-IsSound reading_wake_up e bytes c h s a n =
      dispatch-IsSound c.state e _ refl (completed-IsReady e bytes c s a n (ap is_no_io h))
  complete_io-IsSound reading_ok e bytes c h s a n =
      dispatch-IsSound c.state e _ refl (completed-IsReady e bytes c s a n (ap is_no_io h))
  complete_io-IsSound reading_ack e bytes c h s a n =
      let c' =
        read_bytes e (λ d. record d { ack_buffer = get_or bytes 0 0 })
          (record c { io = no_io; timer = no_wait }) in
      elim (Bool-cases (is_garbage c'.ack_buffer)) [
        | inl garbage ↦ rw garbage (recv_ack-IsSound (get_or bytes 0 0) e c h s)
        | inr answer ↦ rw answer (
            dispatch-IsSound c'.state e c' refl
              (acknowledge-IsReady _ e _ (completed-IsReady e bytes c s a n (ap is_no_io h))))
      ]
  complete_io-IsSound (reading_data to) e bytes c h s a n =
      let c' = read_bytes e (receive to bytes) (record c { io = no_io; timer = no_wait }) in
      dispatch-IsSound c'.state e c' refl
        (receive-IsReady to bytes e _ (completed-IsReady e bytes c s a n (ap is_no_io h)))

  expire_timer-IsSound :
      (t : TimerTask) (c : Connector) → c.timer ≡ t → IsSound c → IsSound (expire_timer lib w t c)
  unfolding expire_timer
  expire_timer-IsSound no_wait c h s = s
  expire_timer-IsSound (deadline n) c h s =
      dispatch-IsSound _ timed_out _ refl (expired-IsReady n c s h)
  expire_timer-IsSound (flush_and_retry r q) c h s = unfold send_request in ground arith

  -- Every event keeps a connector sound.
  pub step-IsSound :
      (i : Input) (c : Connector) → IsSound c → IsAllowed c i → IsSound (step lib w i c)
  unfolding step
  step-IsSound (io_completes success bytes) c s a =
      complete_io-IsSound c.io success bytes c refl s a (λ q. cc)
  step-IsSound (io_completes operation_canceled bytes) c s a = s
  step-IsSound (io_completes timed_out bytes) c s a =
      complete_io-IsSound c.io timed_out bytes c refl s a (λ q. cc)
  step-IsSound (io_completes other_error bytes) c s a =
      complete_io-IsSound c.io other_error bytes c refl s a (λ q. cc)
  step-IsSound timer_expires c s a = expire_timer-IsSound c.timer c refl s
  step-IsSound set_time_expires c s a = unfold expire_set_time_timer in ground arith
  step-IsSound stops c s a = stop-IsSound c
  step-IsSound reloads c s a = absurd a

  pub start-IsSound :
      (c : Connector)
      → c.sock_open ≡ true
      → c.timeouts ≤ 4
      → c.transmission_errors ≤ 100
      → IsSound (start lib w c)
  unfolding start dispatch on_starting
  start-IsSound c o t e = ground arith
