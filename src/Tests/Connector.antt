-- ===== src/Tests/Connector.antt =====
-- The connector, from its start, at a silent station, and at pages intact and damaged.
use meteodata_server.Base.{
  ℕ, zero, suc, ◌%◌, ◌<◌, ◌≤◌, ◌≡◌, ◌≢◌, ◌⊎◌, refl, true, false, [], ◌∷◌, List, arith, Bytes,
}
use meteodata_server.Base.Int.{pos, ◌+ℤ◌, ◌-ℤ◌, ◌*ℤ◌}
use meteodata_server.Davis.Crc.{validate_crc, crc_from, crc_round}
use meteodata_server.Davis.Archive.{
  page_is_valid, store, store_points, store_point, is_relevant, looks_valid, point_timestamp,
}
use meteodata_server.Time.{convert_from_local_time}
use meteodata_server.Davis.Connector.State.{
  sending_wake_up_station, waiting_echo_station, waiting_ack_station, waiting_ack_main_mode,
  waiting_archive_page, sending_archive_page_answer, waiting_next_measure_tick, stopped, success,
  other_error, deadline, no_wait, flush_and_retry, writing, reading_wake_up, reading_ok,
  reading_ack, reading_data, into_archive_page, echo_request, ack, request_bytes, Connector, World,
}
use meteodata_server.Davis.Connector.Actions.{send_request, handle_generic_errors, recv_wake_up}
use meteodata_server.Davis.Connector.Identify.{on_starting, on_sending_wake_up_station}
use meteodata_server.Davis.Connector.Machine.{
  io_completes, timer_expires, step, run, start, complete_io, dispatch, reload,
}
use meteodata_server.Davis.Connector.Invariant.{is_waiting}
use meteodata_server.Davis.Connector.Reach.{here, next, never_hangs}
use meteodata_server.Davis.Connector.Timeouts.{silence, timeout_counts_twice, silent_station_stops}
use meteodata_server.Davis.Connector.Pages.Transfer.{
  Attempt, transfer, finishes, refused, IsDone, download_completes,
}
use meteodata_server.Davis.Connector.Faults.{
  failing_reads, garbage_hides_errors, reload_lost, failed_store_goes_on, main_mode_not_retried,
}
use meteodata_server.Tests.Data.{calendar, utc, connector, world, world_with, refusing}

-- The request for the wake-up has been written.
abbrev echoing : Connector
echoing = step calendar world (io_completes success []) (start calendar world connector)

echoing_live : echoing.state ≢ stopped
unfolding step start complete_io dispatch on_starting on_sending_wake_up_station send_request
    handle_generic_errors recv_wake_up
echoing_live = λ h. ground (arith, h)

start_open : (start calendar world connector).sock_open ≡ true
unfolding start dispatch on_starting send_request
start_open = refl

never_hangs_example :
    (is_waiting echoing.timer echoing.state echoing.io ≡ true)
    × (echoing.timeouts ≤ 4)
    × (echoing.transmission_errors ≤ 100)
    × (echoing.state ≡ waiting_next_measure_tick → echoing.timeouts ≡ 0)
never_hangs_example =
    never_hangs calendar world connector echoing refl (omega arith) (omega arith)
      (next world (io_completes success []) here (λ h. ground (arith, h, start_open))) echoing_live

-- The station is asked to echo.
abbrev silent : Connector
silent = record connector { state = waiting_echo_station; timer = deadline 2; io = reading_wake_up }

timeout_counts_twice_example :
    let c' = step calendar world timer_expires silent in
    (c'.timeouts ≡ 2)
    × ((c'.timeouts < 5)
          × (c'.state ≡ sending_wake_up_station)
          × (c'.timer ≡ flush_and_retry sending_wake_up_station echo_request)
        ⊎ (5 ≤ c'.timeouts) × (c'.state ≡ stopped) × (c'.timer ≡ no_wait) × (c'.sock_open ≡ false))
timeout_counts_twice_example = timeout_counts_twice calendar world silent refl refl

silent_station_stops_example :
    let c' = run calendar (silence world ((world, world) ∷ (world, world) ∷ [])) silent in
    (c'.state ≡ stopped) × (c'.timer ≡ no_wait) × (c'.sock_open ≡ false)
silent_station_stops_example =
    silent_station_stops calendar world ((world, world) ∷ (world, world) ∷ []) silent refl refl
      (omega arith)

abbrev zeros : ℕ → Bytes
zeros zero = []
zeros (suc n) = 0 ∷ zeros n

abbrev intact : Bytes
intact = zeros 267

abbrev damaged : Bytes
damaged = 1 ∷ zeros 266

-- One page is awaited.
abbrev downloading : Connector
downloading = record connector {
  state = waiting_archive_page;
  timer = deadline 6;
  io = reading_data into_archive_page;
  pages_left = 1;
}

abbrev attempts : List Attempt
attempts =
    record { received = world; sent = world; bytes = damaged }
    ∷ record { received = world; sent = world; bytes = intact }
    ∷ []

one_page : (finishes 1 attempts ≡ true) × (refused attempts ≡ 1)
unfolding validate_crc crc_from crc_round
one_page = (refl, refl)

download_completes_example :
    IsDone 0 (pos 1641643200) (pos 0) (run calendar (transfer attempts) downloading)
download_completes_example =
    download_completes calendar attempts downloading refl refl refl (λ h. omega (arith, h))
      (omega arith) (((λ p. refl), (λ ps. refl)), (((λ p. refl), (λ ps. refl)), tt)) one_page.0
      (omega (arith, one_page.1))

-- The last byte received was an end of line.
abbrev garbled : Connector
garbled = record connector {
  state = waiting_ack_station;
  timer = deadline 6;
  io = reading_ack;
  ack_buffer = 10;
}

garbage_hides_errors_example :
    let c' = run calendar (failing_reads ((world, []) ∷ (world, []) ∷ [])) garbled in
    (c'.state ≡ waiting_ack_station)
    × (c'.io ≡ reading_ack)
    × (c'.timeouts ≡ 0)
    × (c'.transmission_errors ≡ 0)
    × (c'.sock_open ≡ true)
    × (c'.ack_buffer ≡ 10)
garbage_hides_errors_example =
    garbage_hides_errors calendar ((world, []) ∷ (world, []) ∷ []) garbled refl refl

reload_lost_example :
    step calendar world (io_completes success intact) (reload downloading)
    ≡ step calendar world
        (io_completes success intact)
        (record downloading { set_time_timer = false })
reload_lost_example =
    reload_lost calendar world success intact downloading (λ h. ground (arith, h))
      (λ h. ground (arith, h))

-- The database refuses everything.
abbrev down : World
down = world_with refusing

intact_valid : page_is_valid (record connector.archive_page { page = intact }) ≡ true
unfolding page_is_valid validate_crc crc_from crc_round
intact_valid = refl

intact_refused :
    (store calendar utc down.now down.inserts (record connector.archive_page { page = intact })).2
    ≡ false
unfolding store store_points store_point is_relevant looks_valid point_timestamp
    convert_from_local_time ◌+ℤ◌ ◌-ℤ◌ ◌*ℤ◌
intact_refused = refl

failed_store_goes_on_example :
    let c' = step calendar down (io_completes success intact) downloading in
    (c'.sock_open ≡ false)
    × (c'.state ≡ sending_archive_page_answer)
    × (c'.io ≡ writing (request_bytes ack))
    × (c'.pages_left ≡ 65536 % 65536)
    × (c'.newest_archive ≡ pos 0)
    × (c'.oldest_archive ≡ pos 1641643200)
    × (c'.effects ≡ [])
failed_store_goes_on_example =
    failed_store_goes_on calendar down downloading intact refl refl intact_valid intact_refused

abbrev asked : Connector
asked = record connector { state = waiting_ack_main_mode; timer = deadline 6; io = reading_ok }

main_mode_not_retried_example :
    let late = step calendar world timer_expires asked in
    let failed = step calendar world (io_completes other_error []) asked in
    (late.state ≡ stopped)
    × (late.timer ≡ no_wait)
    × (failed.state ≡ stopped)
    × (failed.timer ≡ no_wait)
main_mode_not_retried_example = main_mode_not_retried calendar world asked [] refl refl refl
