-- ===== src/Davis/Connector/Pages.antt =====
-- A page of the archive that arrives, and what follows the answer to it.
pub mod Transfer
use meteodata_server.Base.{
  ◌+◌, ◌≤◌, ◌<◌, ◌≡◌, ◌≢◌, ◌⊎◌, inl, inr, true, false, arith, [], Bytes, Bool-cases, List,
}
use meteodata_server.Base.{ap}
use meteodata_server.Time.{DateLib}
use meteodata_server.Davis.Archive.{page_is_valid, ArchiveDataPoint, Inserts}
use meteodata_server.Davis.Archive.Store.{store_accepted}
use meteodata_server.Davis.Connector.State.{
  waiting_next_measure_tick, waiting_archive_page, sending_archive_page_answer,
  sending_wake_up_settime, stopped, success, no_wait, into_archive_page, no_io, writing,
  reading_data, Connector, World,
}
use meteodata_server.Davis.Connector.Actions.{stop, send_request}
use meteodata_server.Davis.Connector.Download.{
  on_waiting_archive_page, on_archive_answer_sent, publish_jobs, note_archive_times,
  on_download_done, on_valid_page, on_invalid_page,
}
use meteodata_server.Davis.Connector.Machine.{dispatch, complete_io, io_completes, step}
use meteodata_server.Base.{◌∙◌, ◌%◌}
use meteodata_server.Base.Int.{◌≤ℤ◌}
use meteodata_server.Davis.Crc.{validate_crc}
use meteodata_server.Davis.Connector.Actions.{recv_data, wait_for_next_measure}
use meteodata_server.Davis.Connector.State.{ack, nak, request_bytes}

-- The page that a read of `bytes` leaves.
abbrev pub with_page : Bytes → Connector → Connector
with_page bytes c = record c {
  io = no_io;
  timer = no_wait;
  archive_page = record c.archive_page { page = bytes };
}

-- A database that every insertion into succeeds.
abbrev pub AcceptsAll : Inserts → Type 0
AcceptsAll db =
    ((p : ArchiveDataPoint) → db.insert_v2_data_point p ≡ true)
    × ((ps : List ArchiveDataPoint) → db.insert_v2_data_points_in_timescale_db ps ≡ true)

module _ (lib : DateLib) (w : World) where
  pub receive_page :
      (c : Connector) (bytes : Bytes)
      → c.state ≡ waiting_archive_page
      → c.io ≡ reading_data into_archive_page
      → step lib w (io_completes success bytes) c
        ≡ on_waiting_archive_page lib w success (with_page bytes c)
  unfolding step complete_io dispatch
  receive_page c bytes s i =
      ap (λ t. complete_io lib w t success bytes c) i
      ∙ ap (λ t. dispatch lib w t success (with_page bytes c)) s

  answer_sent :
      (c : Connector) {sent : Bytes}
      → c.state ≡ sending_archive_page_answer
      → c.io ≡ writing sent
      → step lib w (io_completes success []) c
        ≡ on_archive_answer_sent w success (record c { io = no_io; timer = no_wait })
  unfolding step complete_io dispatch
  answer_sent c s i =
      ap (λ t. complete_io lib w t success [] c) i
      ∙ ap (λ t. dispatch lib w t success (record c { io = no_io; timer = no_wait })) s

  valid_page_lem :
      (c : Connector) (bytes : Bytes)
      → validate_crc bytes ≡ true
      → let c' = on_waiting_archive_page lib w success (with_page bytes c) in
        (validate_crc bytes ≡ true)
        × (c'.state ≡ sending_archive_page_answer)
        × (c'.io ≡ writing (request_bytes ack))
        × (c'.pages_left ≡ (c.pages_left + 65535) % 65536)
        × (c'.transmission_errors ≡ c.transmission_errors)
        × (c'.nb_downloads ≡ c.nb_downloads)
        × (c.newest_archive ≤ℤ c'.newest_archive)
        × (c'.oldest_archive ≤ℤ c.oldest_archive)
  unfolding on_waiting_archive_page on_valid_page note_archive_times stop send_request page_is_valid
  valid_page_lem c bytes v = ground (arith, v)

  stored_page_lem :
      (c : Connector) (bytes : Bytes)
      → validate_crc bytes ≡ true
      → AcceptsAll w.inserts
      → (on_waiting_archive_page lib w success (with_page bytes c)).sock_open ≡ c.sock_open
  unfolding on_waiting_archive_page on_valid_page note_archive_times stop send_request page_is_valid
  stored_page_lem c bytes v all =
      let page = record c.archive_page { page = bytes } in
      let stored =
        store_accepted lib c.time_offseter.timezone_info w.now w.inserts page all.0 all.1 in
      ground (arith, v, stored)

  invalid_page_lem :
      (c : Connector) (bytes : Bytes)
      → validate_crc bytes ≡ false
      → let c' = on_waiting_archive_page lib w success (with_page bytes c) in
        (validate_crc bytes ≡ false)
        × (c'.io ≡ writing (request_bytes nak))
        × (c'.pages_left ≡ c.pages_left)
        × (c'.transmission_errors ≡ c.transmission_errors + 1)
        × (c'.effects ≡ c.effects)
        × (c'.nb_downloads ≡ c.nb_downloads)
        × (c'.newest_archive ≡ c.newest_archive)
        × (c'.oldest_archive ≡ c.oldest_archive)
        × ((c.transmission_errors < 100)
              × (c'.state ≡ sending_archive_page_answer)
              × (c'.sock_open ≡ c.sock_open)
            ⊎ (100 ≤ c.transmission_errors) × (c'.state ≡ stopped))
  unfolding on_waiting_archive_page on_invalid_page stop send_request page_is_valid
  invalid_page_lem c bytes v = ground (arith, v)

  next_page_lem :
      (c : Connector)
      → let c' = on_archive_answer_sent w success c in
        (c'.pages_left ≡ c.pages_left)
        × (c'.newest_archive ≡ c.newest_archive)
        × (c'.oldest_archive ≡ c.oldest_archive)
        × (c'.sock_open ≡ c.sock_open)
        × ((c.pages_left ≢ 0)
              × (c'.state ≡ waiting_archive_page)
              × (c'.io ≡ reading_data into_archive_page)
              × (c'.transmission_errors ≡ c.transmission_errors)
              × (c'.nb_downloads ≡ c.nb_downloads)
            ⊎ (c.pages_left ≡ 0)
              × (c'.nb_downloads ≡ c.nb_downloads + 1)
              × (c'.last_archive ≡ c.newest_archive)
              × ((c'.state ≡ waiting_next_measure_tick) ⊎ (c'.state ≡ sending_wake_up_settime)))
  unfolding on_archive_answer_sent on_download_done publish_jobs send_request wait_for_next_measure
      recv_data stop
  next_page_lem c = ground arith

  -- A page that arrives: a valid one is acknowledged and counted as received, whatever the
  -- database says of its points, and the times of the newest and the oldest point known only
  -- widen, and the socket stays as it was if the database accepts everything; an invalid one is refused and counts for an error, nothing is published or counted as
  -- received, those times are kept, and the connector is stopped when there were 100 errors
  -- already.
  pub page_answer :
      (c : Connector) (bytes : Bytes)
      → c.state ≡ waiting_archive_page
      → c.io ≡ reading_data into_archive_page
      → let c' = step lib w (io_completes success bytes) c in
        (validate_crc bytes ≡ true)
          × (c'.state ≡ sending_archive_page_answer)
          × (c'.io ≡ writing (request_bytes ack))
          × (c'.pages_left ≡ (c.pages_left + 65535) % 65536)
          × (c'.transmission_errors ≡ c.transmission_errors)
          × (c'.nb_downloads ≡ c.nb_downloads)
          × (c.newest_archive ≤ℤ c'.newest_archive)
          × (c'.oldest_archive ≤ℤ c.oldest_archive)
          × (AcceptsAll w.inserts → c'.sock_open ≡ c.sock_open)
        ⊎ (validate_crc bytes ≡ false)
          × (c'.io ≡ writing (request_bytes nak))
          × (c'.pages_left ≡ c.pages_left)
          × (c'.transmission_errors ≡ c.transmission_errors + 1)
          × (c'.effects ≡ c.effects)
          × (c'.nb_downloads ≡ c.nb_downloads)
          × (c'.newest_archive ≡ c.newest_archive)
          × (c'.oldest_archive ≡ c.oldest_archive)
          × ((c.transmission_errors < 100)
                × (c'.state ≡ sending_archive_page_answer)
                × (c'.sock_open ≡ c.sock_open)
              ⊎ (100 ≤ c.transmission_errors) × (c'.state ≡ stopped))
  page_answer c bytes s i = rw (receive_page c bytes s i) (elim (Bool-cases (validate_crc bytes)) [
    | inl v ↦
        let (crc, s', i', l, e, d, p, q) = valid_page_lem c bytes v in
        inl (crc, s', i', l, e, d, p, q, stored_page_lem c bytes v)
    | inr v ↦ inr (invalid_page_lem c bytes v)
  ])

  pub after_answer :
      (c : Connector) {sent : Bytes}
      → c.state ≡ sending_archive_page_answer
      → c.io ≡ writing sent
      → let c' = step lib w (io_completes success []) c in
        (c'.pages_left ≡ c.pages_left)
        × (c'.newest_archive ≡ c.newest_archive)
        × (c'.oldest_archive ≡ c.oldest_archive)
        × (c'.sock_open ≡ c.sock_open)
        × ((c.pages_left ≢ 0)
              × (c'.state ≡ waiting_archive_page)
              × (c'.io ≡ reading_data into_archive_page)
              × (c'.transmission_errors ≡ c.transmission_errors)
              × (c'.nb_downloads ≡ c.nb_downloads)
            ⊎ (c.pages_left ≡ 0)
              × (c'.nb_downloads ≡ c.nb_downloads + 1)
              × (c'.last_archive ≡ c.newest_archive)
              × ((c'.state ≡ waiting_next_measure_tick) ⊎ (c'.state ≡ sending_wake_up_settime)))
  after_answer c s i =
      rw (answer_sent c s i) (next_page_lem (record c { io = no_io; timer = no_wait }))
