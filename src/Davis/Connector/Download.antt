-- ===== src/Davis/Connector/Download.antt =====
-- `handleEvent` from `SENDING_WAKE_UP_ARCHIVE` to `SENDING_ARCHIVE_PAGE_ANSWER`: the archive of the
-- station is downloaded page by page.
use meteodata_server.Base.{◌+◌, ◌%◌, not, ◌&&◌, [], ◌∷◌, ◌++◌, ltb, ◌==◌, if◌then◌else◌}
use meteodata_server.Base.Int.{ltb_ℤ, floor_div}
use meteodata_server.Time.{DateLib}
use meteodata_server.Davis.Crc.{validate_crc}
use meteodata_server.Davis.Archive.{page_is_valid, store}
use meteodata_server.Davis.Params.{build_archive_request_params}
use meteodata_server.Davis.Connector.State.{
  waiting_next_measure_tick, sending_wake_up_archive, waiting_echo_archive, sending_req_archive,
  waiting_ack_archive, sending_archive_params, waiting_ack_archive_params, waiting_archive_nb_pages,
  sending_ack_archive_download, sending_abort_archive_download, waiting_archive_page,
  sending_archive_page_answer, sending_wake_up_settime, ErrorCode, echo_request,
  get_archive_request, ack, nak, abort, into_archive_size, into_archive_page,
  update_last_archive_download_time, publish_new_datapoint, publish_jobs_for_past_data_insertion,
  Connector, World,
}
use meteodata_server.Davis.Connector.Actions.{
  stop, send_request, send_buffer, recv_wake_up, recv_ack, recv_data, handle_generic_errors,
  retry_transmission, wait_for_next_measure, retrying, aborting,
}

-- case State::SENDING_WAKE_UP_ARCHIVE
unfoldable pub on_sending_wake_up_archive : ErrorCode → Connector → Connector
unfolding handle_generic_errors recv_wake_up
on_sending_wake_up_archive e =
    retrying e sending_wake_up_archive echo_request
      λ c. recv_wake_up (record c { state = waiting_echo_archive })

-- case State::WAITING_ECHO_ARCHIVE
unfoldable pub on_waiting_echo_archive : ErrorCode → Connector → Connector
unfolding handle_generic_errors send_request
on_waiting_echo_archive e =
    retrying e sending_wake_up_archive echo_request
      λ c. send_request get_archive_request (record c { state = sending_req_archive })

-- case State::SENDING_REQ_ARCHIVE
unfoldable pub on_sending_req_archive : ErrorCode → Connector → Connector
unfolding handle_generic_errors recv_ack
on_sending_req_archive e =
    retrying e sending_req_archive get_archive_request
      λ c. recv_ack (record c { state = waiting_ack_archive })

-- case State::WAITING_ACK_ARCHIVE
unfoldable pub on_waiting_ack_archive : DateLib → ErrorCode → Connector → Connector
unfolding handle_generic_errors retry_transmission send_buffer
on_waiting_ack_archive lib e = retrying e sending_req_archive get_archive_request λ c.
    if not (c.ack_buffer == 0x06)
    then retry_transmission sending_req_archive get_archive_request c
    else send_buffer (build_archive_request_params lib c.time_offseter.timezone_info c.last_archive)
        (record c { state = sending_archive_params })

-- case State::SENDING_ARCHIVE_PARAMS
unfoldable pub on_sending_archive_params : ErrorCode → Connector → Connector
unfolding stop recv_ack
on_sending_archive_params e =
    aborting e λ c. recv_ack (record c { state = waiting_ack_archive_params })

-- case State::WAITING_ACK_ARCHIVE_PARAMS
unfoldable pub on_waiting_ack_archive_params : ErrorCode → Connector → Connector
unfolding stop recv_data
on_waiting_ack_archive_params e = aborting e λ c.
    if not (c.ack_buffer == 0x06)
    then stop c
    else recv_data into_archive_size (record c { state = waiting_archive_nb_pages })

-- case State::WAITING_ARCHIVE_NB_PAGES
unfoldable pub on_waiting_archive_nb_pages : ErrorCode → Connector → Connector
unfolding stop send_request
on_waiting_archive_nb_pages e = aborting e λ c.
    if validate_crc c.archive_size
    then send_request ack (record c { state = sending_ack_archive_download })
    else send_request abort (record c { state = sending_abort_archive_download })

-- case State::SENDING_ABORT_ARCHIVE_DOWNLOAD
unfoldable pub on_sending_abort_archive_download : World → ErrorCode → Connector → Connector
unfolding stop wait_for_next_measure
on_sending_abort_archive_download w e =
    aborting e λ c. wait_for_next_measure w (record c { state = waiting_next_measure_tick })

-- After a page is stored: `_newestArchive`, `_oldestArchive`, and what is told of them.
unfoldable pub note_archive_times : Connector → Connector
note_archive_times c =
    let last = c.archive_page.most_recent in
    let c' =
      if ltb_ℤ c.newest_archive last
      then record c {
        newest_archive = last;
        effects =
            c.effects ++ (update_last_archive_download_time last ∷ publish_new_datapoint last ∷ []);
      }
      else c in
    if ltb_ℤ last c'.oldest_archive then record c' { oldest_archive = last } else c'

-- The branch for a valid page. `stop` does not return from the handler.
unfoldable pub on_valid_page : DateLib → World → Connector → Connector
unfolding stop send_request
on_valid_page lib w c =
    let (page, calls, ret) =
      store lib c.time_offseter.timezone_info w.now w.inserts c.archive_page in
    let stored = record c { archive_page = page } in
    let c' = if ret then note_archive_times stored else stop stored in
    send_request ack (record c' {
      pages_left = (c'.pages_left + 65535) % 65536;
      state = sending_archive_page_answer;
    })

-- The branch for an invalid page. `stop` does not return from the handler.
unfoldable pub on_invalid_page : Connector → Connector
unfolding stop send_request
on_invalid_page c =
    let c' = record c {
      state = sending_archive_page_answer;
      transmission_errors = c.transmission_errors + 1;
    } in
    send_request nak (if ltb 100 c'.transmission_errors then stop c' else c')

-- case State::WAITING_ARCHIVE_PAGE
unfoldable pub on_waiting_archive_page : DateLib → World → ErrorCode → Connector → Connector
unfolding stop
on_waiting_archive_page lib w e =
    aborting e
      λ c. if page_is_valid c.archive_page then on_valid_page lib w c else on_invalid_page c

-- The end of a download: `_jobPublisher->publishJobsForPastDataInsertion`
unfoldable pub publish_jobs : World → Connector → Connector
publish_jobs w c =
    if c.job_publisher && ltb_ℤ (floor_div c.oldest_archive 86400) (floor_div w.now 86400)
    then record c {
      effects =
          c.effects
          ++ (publish_jobs_for_past_data_insertion c.oldest_archive c.newest_archive ∷ []);
    }
    else c

unfoldable pub on_download_done : World → Connector → Connector
unfolding send_request wait_for_next_measure
on_download_done w c =
    let c' =
      publish_jobs w
        (record c { nb_downloads = c.nb_downloads + 1; last_archive = c.newest_archive }) in
    if c'.set_time_requested
    then send_request echo_request (record c' { state = sending_wake_up_settime })
    else wait_for_next_measure w (record c' { state = waiting_next_measure_tick })

-- case State::SENDING_ACK_ARCHIVE_DOWNLOAD and case State::SENDING_ARCHIVE_PAGE_ANSWER
unfoldable pub on_archive_answer_sent : World → ErrorCode → Connector → Connector
unfolding stop recv_data
on_archive_answer_sent w e = aborting e λ c.
    if not (c.pages_left == 0)
    then recv_data into_archive_page (record c { state = waiting_archive_page })
    else on_download_done w c
