-- ===== src/Davis/Connector/Identify.antt =====
-- `handleEvent` from `STARTING` to `WAITING_DATA_TIMEZONE`: the station is woken up, identified by
-- its coordinates, put in its main mode and asked for its time settings.
use meteodata_server.Base.{◌*◌, none, some, not, ◌==◌, if◌then◌else◌, Bytes, get_or}
use meteodata_server.Base.Int.{pos, ◌+ℤ◌, ltb_ℤ}
use meteodata_server.Time.{TimezoneBuffer, TimeOffseter, by_offset, prepare}
use meteodata_server.Davis.Crc.{validate_crc}
use meteodata_server.Davis.Archive.{word_at, page_prepare}
use meteodata_server.Davis.Connector.State.{
  sending_wake_up_station, waiting_echo_station, sending_req_station, waiting_ack_station,
  waiting_data_station, sending_req_main_mode, waiting_ack_main_mode, sending_req_timezone,
  waiting_ack_timezone, waiting_data_timezone, sending_wake_up_archive, sending_wake_up_settime,
  ErrorCode, echo_request, get_station_request, main_mode_request, get_timezone_request,
  into_coords, into_timezone_buffer, Connector, World, StationRow, signed16,
}
use meteodata_server.Davis.Connector.Actions.{
  stop, send_request, recv_wake_up, recv_ok, recv_ack, recv_data, handle_generic_errors,
  retry_transmission, is_success, retrying,
}

-- case State::STARTING
unfoldable pub on_starting : Connector → Connector
unfolding send_request
on_starting c = send_request echo_request (record c { state = sending_wake_up_station })

-- case State::SENDING_WAKE_UP_STATION
unfoldable pub on_sending_wake_up_station : ErrorCode → Connector → Connector
unfolding handle_generic_errors recv_wake_up
on_sending_wake_up_station e =
    retrying e sending_wake_up_station echo_request
      λ c. recv_wake_up (record c { state = waiting_echo_station })

-- case State::WAITING_ECHO_STATION
unfoldable pub on_waiting_echo_station : ErrorCode → Connector → Connector
unfolding handle_generic_errors send_request
on_waiting_echo_station e =
    retrying e sending_wake_up_station echo_request
      λ c. send_request get_station_request (record c { state = sending_req_station })

-- case State::SENDING_REQ_STATION
unfoldable pub on_sending_req_station : ErrorCode → Connector → Connector
unfolding handle_generic_errors recv_ack
on_sending_req_station e =
    retrying e sending_req_station get_station_request
      λ c. recv_ack (record c { state = waiting_ack_station })

-- case State::WAITING_ACK_STATION
unfoldable pub on_waiting_ack_station : ErrorCode → Connector → Connector
unfolding handle_generic_errors retry_transmission recv_data
on_waiting_ack_station e = retrying e sending_req_station get_station_request λ c.
    if not (c.ack_buffer == 0x06)
    then retry_transmission sending_req_station get_station_request c
    else recv_data into_coords (record c { state = waiting_data_station })

-- The settings that the row of the station gives, found or not.
unfoldable pub adopt_station : StationRow → Connector → Connector
adopt_station row c = record c {
  station = row.station;
  polling_period = row.polling_period;
  last_archive = row.last_archive_download_time;
  time_offseter = record c.time_offseter {
    latitude = signed16 (word_at c.coords 0);
    longitude = signed16 (word_at c.coords 2);
    elevation = signed16 (word_at c.coords 4);
    measure_step = row.polling_period;
    may_store_inside_measurements = row.store_inside_measurements;
  };
}

-- case State::WAITING_DATA_STATION
unfoldable pub on_waiting_data_station : World → ErrorCode → Connector → Connector
unfolding handle_generic_errors retry_transmission adopt_station send_request stop
on_waiting_data_station w e = retrying e sending_req_station get_station_request λ c.
    if not (validate_crc c.coords)
    then retry_transmission sending_req_station get_station_request c
    else let row = w.get_station_by_coords c.coords in
      let c' = adopt_station row c in
      if row.found
      then send_request main_mode_request (record c' { state = sending_req_main_mode })
      else stop c'

-- case State::SENDING_REQ_MAIN_MODE
unfoldable pub on_sending_req_main_mode : ErrorCode → Connector → Connector
unfolding handle_generic_errors recv_ok
on_sending_req_main_mode e =
    retrying e sending_req_main_mode main_mode_request
      λ c. recv_ok (record c { state = waiting_ack_main_mode })

-- case State::WAITING_ACK_MAIN_MODE
unfoldable pub on_waiting_ack_main_mode : ErrorCode → Connector → Connector
unfolding handle_generic_errors send_request stop
on_waiting_ack_main_mode e c =
    let c' = handle_generic_errors e sending_req_main_mode main_mode_request c in
    if is_success e
    then send_request get_timezone_request (record c' { state = sending_req_timezone })
    else stop c'

-- case State::SENDING_REQ_TIMEZONE
unfoldable pub on_sending_req_timezone : ErrorCode → Connector → Connector
unfolding handle_generic_errors recv_ack
on_sending_req_timezone e =
    retrying e sending_req_timezone get_timezone_request
      λ c. recv_ack (record c { state = waiting_ack_timezone })

-- case State::WAITING_ACK_TIMEZONE
unfoldable pub on_waiting_ack_timezone : ErrorCode → Connector → Connector
unfolding handle_generic_errors retry_transmission recv_data
on_waiting_ack_timezone e = retrying e sending_req_timezone get_timezone_request λ c.
    if not (c.ack_buffer == 0x06)
    then retry_transmission sending_req_timezone get_timezone_request c
    else recv_data into_timezone_buffer (record c { state = waiting_data_timezone })

-- The fields of the six bytes received as the time settings.
abbrev pub timezone_fields : Bytes → TimezoneBuffer
timezone_fields b = record {
  time_zone = get_or b 0 0;
  manual_dst = get_or b 1 0;
  active_dst = get_or b 2 0;
  gmt_offset = signed16 (word_at b 3);
  gmt_or_zone = get_or b 5 0;
}

-- `_timeOffseter.prepare(_timezoneBuffer)`; past the end of the table the offset is whatever is read.
unfoldable pub adopt_timezone : World → Connector → TimeOffseter
adopt_timezone w c = elim (prepare c.time_offseter (timezone_fields c.timezone_buffer)) [
  | some t ↦ t
  | none ↦ record c.time_offseter { timezone_info = by_offset w.stray_offset }
]

-- case State::WAITING_DATA_TIMEZONE: the CRC that is checked is once more that of `_coords`.
unfoldable pub on_waiting_data_timezone : World → ErrorCode → Connector → Connector
unfolding handle_generic_errors retry_transmission page_prepare send_request
on_waiting_data_timezone w e = retrying e sending_req_timezone get_timezone_request λ c.
    if not (validate_crc c.coords)
    then retry_transmission sending_req_timezone get_timezone_request c
    else let c' = record c {
      time_offseter = adopt_timezone w c;
      archive_page = page_prepare c.archive_page c.last_archive;
    } in
      if ltb_ℤ (c.last_archive +ℤ pos (c.polling_period * 60)) w.now
      then send_request echo_request (record c' { state = sending_wake_up_archive })
      else send_request echo_request (record c' { state = sending_wake_up_settime })
