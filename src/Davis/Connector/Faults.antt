-- ===== src/Davis/Connector/Faults.antt =====
-- Errors that the connector hides, and operations whose effect is lost.
use meteodata_server.Base.{◌+◌, ◌%◌}
use meteodata_server.Base.{ℕ, ◌≡◌, ◌≢◌, refl, true, false, arith, List, [], ◌∷◌, Bytes}
use meteodata_server.Base.{ap}
use meteodata_server.Davis.Connector.Machine.{is_garbage}
use meteodata_server.Time.{DateLib}
use meteodata_server.Davis.Archive.{page_is_valid, store}
use meteodata_server.Davis.Connector.State.{
  waiting_ack_main_mode, waiting_archive_page, sending_archive_page_answer, stopped, ErrorCode,
  success, operation_canceled, timed_out, other_error, no_wait, deadline, into_archive_page, IoTask,
  no_io, writing, reading_wake_up, reading_ok, reading_ack, reading_data, Connector, World,
}
use meteodata_server.Davis.Connector.Actions.{stop, send_request, recv_ack, flush_socket_and_retry}
use meteodata_server.Davis.Connector.Identify.{on_waiting_ack_main_mode}
use meteodata_server.Davis.Connector.Download.{
  on_waiting_archive_page, note_archive_times, on_valid_page,
}
use meteodata_server.Davis.Connector.Machine.{
  dispatch, complete_io, Input, io_completes, timer_expires, step,
}
use meteodata_server.Base.{◌∙◌}
use meteodata_server.Davis.Connector.Actions.{handle_generic_errors}
use meteodata_server.Davis.Connector.Machine.{reload, run}
use meteodata_server.Davis.Connector.Pages.{with_page, receive_page}
use meteodata_server.Davis.Connector.Timeouts.{expired, expired-timer, step_deadline}
use meteodata_server.Davis.Connector.State.{ack, request_bytes}

-- Reads that fail, each with an error other than a cancellation.
abbrev pub failing_reads : List (World × Bytes) → List (World × Input)
failing_reads [] = []
failing_reads ((w, bytes) ∷ rest) = (w, io_completes other_error bytes) ∷ failing_reads rest

module _ (lib : DateLib) where
  failing_read_lem :
      (w : World) (bytes : Bytes) (c : Connector)
      → c.io ≡ reading_ack
      → is_garbage c.ack_buffer ≡ true
      → step lib w (io_completes other_error bytes) c
        ≡ record c { io = reading_ack; timer = deadline 6 }
  unfolding step complete_io recv_ack
  failing_read_lem w bytes c i g = ap (λ t. complete_io lib w t other_error bytes c) i ∙ rw g

  -- While an acknowledgement is awaited and the byte received last is an end of line, no error of
  -- the socket is seen: after any number of reads that fail, the connector is still in the same
  -- state, with the same counters, reading again.
  pub garbage_hides_errors :
      (reads : List (World × Bytes)) (c : Connector)
      → c.io ≡ reading_ack
      → is_garbage c.ack_buffer ≡ true
      → let c' = run lib (failing_reads reads) c in
        (c'.state ≡ c.state)
        × (c'.io ≡ reading_ack)
        × (c'.timeouts ≡ c.timeouts)
        × (c'.transmission_errors ≡ c.transmission_errors)
        × (c'.sock_open ≡ c.sock_open)
        × (c'.ack_buffer ≡ c.ack_buffer)
  unfolding run
  garbage_hides_errors [] c i g = (refl, i, refl, refl, refl, refl)
  garbage_hides_errors ((w, bytes) ∷ rest) c i g =
      rw (ap (run lib (failing_reads rest)) (failing_read_lem w bytes c i g))
        (garbage_hides_errors rest (record c { io = reading_ack; timer = deadline 6 }) refl g)

  reload-complete_io :
      (w : World) (io : IoTask) (e : ErrorCode) (bytes : Bytes) (c : Connector)
      → io ≢ no_io
      → complete_io lib w io e bytes (reload c)
        ≡ complete_io lib w io e bytes (record c { set_time_timer = false })
  unfolding complete_io reload flush_socket_and_retry
  reload-complete_io w no_io e bytes c i = absurd (i refl)
  reload-complete_io w (writing sent) e bytes c i = refl
  reload-complete_io w reading_wake_up e bytes c i = refl
  reload-complete_io w reading_ok e bytes c i = refl
  reload-complete_io w reading_ack e bytes c i = refl
  reload-complete_io w (reading_data to) e bytes c i = refl

  -- A reload while an operation is in progress on the socket is lost: when that operation completes,
  -- with any result but a cancellation, the connector goes on exactly as if it had not been
  -- reloaded, except that the wait until the clock of the station must be set is gone.
  pub reload_lost :
      (w : World) (e : ErrorCode) (bytes : Bytes) (c : Connector)
      → c.io ≢ no_io
      → e ≢ operation_canceled
      → step lib w (io_completes e bytes) (reload c)
        ≡ step lib w (io_completes e bytes) (record c { set_time_timer = false })
  unfolding step reload flush_socket_and_retry
  reload_lost w success bytes c i n = reload-complete_io w c.io success bytes c i
  reload_lost w operation_canceled bytes c i n = absurd (n refl)
  reload_lost w timed_out bytes c i n = reload-complete_io w c.io timed_out bytes c i
  reload_lost w other_error bytes c i n = reload-complete_io w c.io other_error bytes c i

module _ (lib : DateLib) (w : World) (c : Connector) where
  refused_page_lem :
      (bytes : Bytes)
      → let page = record c.archive_page { page = bytes } in
        page_is_valid page ≡ true
        → (store lib c.time_offseter.timezone_info w.now w.inserts page).2 ≡ false
        → let c' = on_waiting_archive_page lib w success (with_page bytes c) in
          (c'.sock_open ≡ false)
          × (c'.state ≡ sending_archive_page_answer)
          × (c'.io ≡ writing (request_bytes ack))
          × (c'.pages_left ≡ (c.pages_left + 65535) % 65536)
          × (c'.newest_archive ≡ c.newest_archive)
          × (c'.oldest_archive ≡ c.oldest_archive)
          × (c'.effects ≡ c.effects)
  unfolding on_waiting_archive_page on_valid_page note_archive_times stop send_request
  refused_page_lem bytes v r = rw (v, r) (ground arith)

  main_mode_lem :
      (e : ErrorCode) (d : Connector)
      → e ≢ success
      → d.timer ≡ no_wait
      → (dispatch lib w waiting_ack_main_mode e d).state ≡ stopped
        × (dispatch lib w waiting_ack_main_mode e d).timer ≡ no_wait
  unfolding dispatch on_waiting_ack_main_mode handle_generic_errors stop flush_socket_and_retry
  main_mode_lem e d n t = ground arith

  -- An intact page that `store` fails to store stops the connector, which nevertheless goes on:
  -- its socket is closed, nothing is published and the newest and oldest times of the archive are
  -- those of before, but it acknowledges the page, counts it as received and leaves the stopped
  -- state.
  pub failed_store_goes_on :
      (bytes : Bytes)
      → c.state ≡ waiting_archive_page
      → c.io ≡ reading_data into_archive_page
      → let page = record c.archive_page { page = bytes } in
        page_is_valid page ≡ true
        → (store lib c.time_offseter.timezone_info w.now w.inserts page).2 ≡ false
        → let c' = step lib w (io_completes success bytes) c in
          (c'.sock_open ≡ false)
          × (c'.state ≡ sending_archive_page_answer)
          × (c'.io ≡ writing (request_bytes ack))
          × (c'.pages_left ≡ (c.pages_left + 65535) % 65536)
          × (c'.newest_archive ≡ c.newest_archive)
          × (c'.oldest_archive ≡ c.oldest_archive)
          × (c'.effects ≡ c.effects)
  failed_store_goes_on bytes s i v r =
      rw (receive_page lib w c bytes s i) (refused_page_lem bytes v r)

  main_mode_read :
      (bytes : Bytes)
      → c.state ≡ waiting_ack_main_mode
      → c.io ≡ reading_ok
      → step lib w (io_completes other_error bytes) c
        ≡ dispatch lib w waiting_ack_main_mode other_error
            (record c { io = no_io; timer = no_wait })
  unfolding step complete_io
  main_mode_read bytes s i =
      ap (λ t. complete_io lib w t other_error bytes c) i
      ∙ ap (λ t. dispatch lib w t other_error (record c { io = no_io; timer = no_wait })) s

  -- In the state that waits for the answer to the main mode request, a deadline that passes and a
  -- read that fails both stop the connector, with nothing left to wait for, however few the
  -- timeouts: the request is not sent again.
  pub main_mode_not_retried :
      {s : ℕ} (bytes : Bytes)
      → c.state ≡ waiting_ack_main_mode
      → c.timer ≡ deadline s
      → c.io ≡ reading_ok
      → let late = step lib w timer_expires c in
        let failed = step lib w (io_completes other_error bytes) c in
        (late.state ≡ stopped)
        × (late.timer ≡ no_wait)
        × (failed.state ≡ stopped)
        × (failed.timer ≡ no_wait)
  main_mode_not_retried bytes s t i =
      let late =
        step_deadline lib w c t ∙ ap (λ t. dispatch lib w t timed_out (expired lib w c)) s in
      let failed = main_mode_read bytes s i in
      let (stops_late, idle_late) =
        main_mode_lem timed_out (expired lib w c) (ground arith) (expired-timer lib w c) in
      let (stops_failed, idle_failed) =
        main_mode_lem other_error (record c { io = no_io; timer = no_wait }) (ground arith) refl in
      (
        ap (λ d. d.state) late ∙ stops_late,
        ap (λ d. d.timer) late ∙ idle_late,
        ap (λ d. d.state) failed ∙ stops_failed,
        ap (λ d. d.timer) failed ∙ idle_failed,
      )
