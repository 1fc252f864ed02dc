-- ===== src/Davis/Connector/Machine.antt =====
-- The whole machine: `handleEvent`, the completions of the operations in progress, and the
-- operations of the object. An operation that is cancelled reports `operation_canceled` and does
-- nothing, so it is dropped where it is cancelled.
use meteodata_server.Base.{
  List, [], ◌∷◌, ℕ, Bool, ◌+◌, true, false, ◌||◌, ◌==◌, if◌then◌else◌, Bytes, get_or, take,
}
use meteodata_server.Time.{DateLib}
use meteodata_server.Davis.Archive.{word_at}
use meteodata_server.Davis.Connector.State.{
  State, starting, waiting_next_measure_tick, sending_wake_up_station, waiting_echo_station,
  sending_req_station, waiting_ack_station, waiting_data_station, sending_req_main_mode,
  waiting_ack_main_mode, sending_req_timezone, waiting_ack_timezone, waiting_data_timezone,
  sending_wake_up_archive, waiting_echo_archive, sending_req_archive, waiting_ack_archive,
  sending_archive_params, waiting_ack_archive_params, waiting_archive_nb_pages,
  sending_ack_archive_download, sending_abort_archive_download, waiting_archive_page,
  sending_archive_page_answer, sending_wake_up_settime, waiting_echo_settime, sending_settime,
  waiting_ack_settime, sending_settime_params, waiting_ack_time_set, stopped, ErrorCode,
  operation_canceled, success, timed_out, echo_request, TimerTask, no_wait, deadline,
  flush_and_retry, Destination, into_coords, into_timezone_buffer, into_archive_size,
  into_archive_page, IoTask, no_io, writing, reading_wake_up, reading_ok, reading_ack, reading_data,
  Connector, World,
}
use meteodata_server.Davis.Connector.Actions.{
  stop, send_request, recv_ack, flush_socket_and_retry, is_success,
}
use meteodata_server.Davis.Connector.Identify.{
  on_starting, on_sending_wake_up_station, on_waiting_echo_station, on_sending_req_station,
  on_waiting_ack_station, on_waiting_data_station, on_sending_req_main_mode,
  on_waiting_ack_main_mode, on_sending_req_timezone, on_waiting_ack_timezone,
  on_waiting_data_timezone,
}
use meteodata_server.Davis.Connector.Download.{
  on_sending_wake_up_archive, on_waiting_echo_archive, on_sending_req_archive,
  on_waiting_ack_archive, on_sending_archive_params, on_waiting_ack_archive_params,
  on_waiting_archive_nb_pages, on_sending_abort_archive_download, on_waiting_archive_page,
  on_archive_answer_sent,
}
use meteodata_server.Davis.Connector.SetTime.{
  on_waiting_next_measure_tick, on_sending_wake_up_settime, on_waiting_echo_settime,
  on_sending_settime, on_waiting_ack_settime, on_sending_settime_params, on_waiting_ack_time_set,
}

-- The bytes that a completed read leaves in its buffer. That of the time zone has only 6 of the bytes of the
-- answer, without the CRC.
abbrev pub receive : Destination → Bytes → Connector → Connector
receive into_coords bytes c = record c { coords = bytes }
receive into_timezone_buffer bytes c = record c { timezone_buffer = take 6 bytes }
receive into_archive_size bytes c = record c { archive_size = bytes; pages_left = word_at bytes 0 }
receive into_archive_page bytes c = record c {
  archive_page = record c.archive_page { page = bytes };
}

abbrev pub read_bytes : ErrorCode → (Connector → Connector) → Connector → Connector
read_bytes e put c = if is_success e then put c else c

-- What recvAck skips.
abbrev pub is_garbage : ℕ → Bool
is_garbage byte = byte == b'\n' || byte == b'\r'

module _ (lib : DateLib) (w : World) where
  -- The switch of handleEvent.
  unfoldable pub dispatch : State → ErrorCode → Connector → Connector
  dispatch starting e = on_starting
  dispatch waiting_next_measure_tick e = on_waiting_next_measure_tick w e
  dispatch sending_wake_up_station e = on_sending_wake_up_station e
  dispatch waiting_echo_station e = on_waiting_echo_station e
  dispatch sending_req_station e = on_sending_req_station e
  dispatch waiting_ack_station e = on_waiting_ack_station e
  dispatch waiting_data_station e = on_waiting_data_station w e
  dispatch sending_req_main_mode e = on_sending_req_main_mode e
  dispatch waiting_ack_main_mode e = on_waiting_ack_main_mode e
  dispatch sending_req_timezone e = on_sending_req_timezone e
  dispatch waiting_ack_timezone e = on_waiting_ack_timezone e
  dispatch waiting_data_timezone e = on_waiting_data_timezone w e
  dispatch sending_wake_up_archive e = on_sending_wake_up_archive e
  dispatch waiting_echo_archive e = on_waiting_echo_archive e
  dispatch sending_req_archive e = on_sending_req_archive e
  dispatch waiting_ack_archive e = on_waiting_ack_archive lib e
  dispatch sending_archive_params e = on_sending_archive_params e
  dispatch waiting_ack_archive_params e = on_waiting_ack_archive_params e
  dispatch waiting_archive_nb_pages e = on_waiting_archive_nb_pages e
  dispatch sending_ack_archive_download e = on_archive_answer_sent w e
  dispatch sending_abort_archive_download e = on_sending_abort_archive_download w e
  dispatch waiting_archive_page e = on_waiting_archive_page lib w e
  dispatch sending_archive_page_answer e = on_archive_answer_sent w e
  dispatch sending_wake_up_settime e = on_sending_wake_up_settime e
  dispatch waiting_echo_settime e = on_waiting_echo_settime e
  dispatch sending_settime e = on_sending_settime e
  dispatch waiting_ack_settime e = on_waiting_ack_settime lib w e
  dispatch sending_settime_params e = on_sending_settime_params e
  dispatch waiting_ack_time_set e = on_waiting_ack_time_set w
  dispatch stopped e = λ c. c

  -- handleEvent
  abbrev pub handle_event : ErrorCode → Connector → Connector
  handle_event e c = dispatch c.state e c

  -- start
  unfoldable pub start : Connector → Connector
  start c = handle_event success (record c { state = starting; nb_downloads = 0 })

  -- The handlers of sendRequest, sendBuffer, recvWakeUp, recvOk, recvAck and recvData. The bytes are
  -- those that a successful read has received; a read that fails leaves its buffer as it was.
  unfoldable pub complete_io : IoTask → ErrorCode → Bytes → Connector → Connector
  complete_io no_io e bytes c = c
  complete_io (writing sent) e bytes c = handle_event e (record c { io = no_io; timer = no_wait })
  complete_io reading_wake_up e bytes c = handle_event e (record c { io = no_io; timer = no_wait })
  complete_io reading_ok e bytes c = handle_event e (record c { io = no_io; timer = no_wait })
  complete_io reading_ack e bytes c =
      let c' =
        read_bytes e (λ d. record d { ack_buffer = get_or bytes 0 0 })
          (record c { io = no_io; timer = no_wait }) in
      if is_garbage c'.ack_buffer then recv_ack c' else handle_event e c'
  complete_io (reading_data to) e bytes c =
      handle_event e (read_bytes e (receive to bytes) (record c { io = no_io; timer = no_wait }))

  -- checkDeadline past the deadline, and the handler of flushSocketAndRetry
  unfoldable pub expire_timer : TimerTask → Connector → Connector
  expire_timer no_wait c = c
  expire_timer (deadline s) c =
      let c' = record c { timeouts = c.timeouts + 1; timer = no_wait } in
      handle_event timed_out (if c'.sock_open then record c' { io = no_io } else c')
  expire_timer (flush_and_retry restart_state restart) c =
      send_request restart (record c { timer = no_wait; state = restart_state })

-- handleSetTimeDeadline past the deadline
unfoldable pub expire_set_time_timer : Connector → Connector
expire_set_time_timer c =
    if c.set_time_timer then record c { set_time_timer = false; set_time_requested = true } else c

-- reload
unfoldable pub reload : Connector → Connector
unfolding flush_socket_and_retry
reload c =
    flush_socket_and_retry sending_wake_up_station echo_request
      (record c { timer = no_wait; set_time_timer = false })

-- What happens to a connector: its operation on the socket completes, its timer or its clock timer
-- expires, or it is stopped or reloaded from outside.
pub data Input : Type 0 where
  io_completes : ErrorCode → Bytes → Input
  timer_expires : Input
  set_time_expires : Input
  stops : Input
  reloads : Input

unfoldable pub step : DateLib → World → Input → Connector → Connector
step lib w (io_completes operation_canceled bytes) c = c
step lib w (io_completes e bytes) c = complete_io lib w c.io e bytes c
step lib w timer_expires c = expire_timer lib w c.timer c
step lib w set_time_expires c = expire_set_time_timer c
step lib w stops c = stop c
step lib w reloads c = reload c

-- A sequence of events, each with what the environment answers while it is handled.
unfoldable pub run : DateLib → List (World × Input) → Connector → Connector
run lib [] c = c
run lib ((w, i) ∷ events) c = run lib events (step lib w i c)
