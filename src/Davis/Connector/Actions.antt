-- ===== src/Davis/Connector/Actions.antt =====
-- What starts, answers or cancels an asynchronous operation of the connector, and the errors that
-- several states share. A new wait on a timer cancels the wait in progress.
use meteodata_server.Base.{◌+◌, ◌-◌, ◌*◌, Bool, true, false, ltb, if◌then◌else◌, Bytes}
use meteodata_server.Base.Int.{floor_mod}
use meteodata_server.Davis.Connector.State.{
  State, stopped, ErrorCode, success, operation_canceled, timed_out, other_error, Request,
  request_bytes, no_wait, deadline, flush_and_retry, Destination, no_io, writing, reading_wake_up,
  reading_ok, reading_ack, reading_data, Connector, World,
}

-- stop
unfoldable pub stop : Connector → Connector
stop c =
    let c' = record c { state = stopped; timer = no_wait; set_time_timer = false } in
    if c.sock_open then record c' { io = no_io; sock_open = false } else c'

-- sendRequest
unfoldable pub send_request : Request → Connector → Connector
send_request r c = record c { timer = deadline 6; io = writing (request_bytes r) }

-- sendBuffer
unfoldable pub send_buffer : Bytes → Connector → Connector
send_buffer buffer c = record c { timer = deadline 6; io = writing buffer }

-- recvWakeUp
unfoldable pub recv_wake_up : Connector → Connector
recv_wake_up c = record c { timer = deadline 2; io = reading_wake_up }

-- recvOk
unfoldable pub recv_ok : Connector → Connector
recv_ok c = record c { timer = deadline 6; io = reading_ok }

-- recvAck
unfoldable pub recv_ack : Connector → Connector
recv_ack c = record c { timer = deadline 6; io = reading_ack }

-- recvData
unfoldable pub recv_data : Destination → Connector → Connector
recv_data to c = record c { timer = deadline 6; io = reading_data to }

-- waitForNextMeasure, with the polling period in minutes
unfoldable pub wait_for_next_measure : World → Connector → Connector
wait_for_next_measure w c =
    let period = c.polling_period * 60 in
    record c {
      timeouts = 0;
      transmission_errors = 0;
      timer = deadline (period - floor_mod w.now period);
    }

-- flushSocketAndRetry
unfoldable pub flush_socket_and_retry : State → Request → Connector → Connector
flush_socket_and_retry restart_state restart c = record c {
  timer = flush_and_retry restart_state restart;
}

-- handleGenericErrors
unfoldable pub handle_generic_errors : ErrorCode → State → Request → Connector → Connector
unfolding stop flush_socket_and_retry
handle_generic_errors success restart_state restart c = c
handle_generic_errors operation_canceled restart_state restart c = c
handle_generic_errors timed_out restart_state restart c =
    let c' = record c { timeouts = c.timeouts + 1 } in
    if ltb c'.timeouts 5
    then flush_socket_and_retry restart_state restart (record c' { state = restart_state })
    else stop c'
handle_generic_errors other_error restart_state restart c = stop c

abbrev pub is_success : ErrorCode → Bool
is_success success = true
is_success _ = false

-- `if (++_transmissionErrors < 5) flushSocketAndRetry(...) else stop()`, as several states do
unfoldable pub retry_transmission : State → Request → Connector → Connector
unfolding stop flush_socket_and_retry
retry_transmission restart_state restart c =
    let c' = record c { transmission_errors = c.transmission_errors + 1 } in
    if ltb c'.transmission_errors 5
    then flush_socket_and_retry restart_state restart c'
    else stop c'

-- `handleGenericErrors(e, ...); if (e == success) { ... }`
abbrev pub retrying : ErrorCode → State → Request → (Connector → Connector) → Connector → Connector
retrying e restart_state restart proceed c =
    let c' = handle_generic_errors e restart_state restart c in
    if is_success e then proceed c' else c'

-- `if (e != success) stop(); else { ... }`
abbrev pub aborting : ErrorCode → (Connector → Connector) → Connector → Connector
aborting e proceed c = if is_success e then proceed c else stop c
