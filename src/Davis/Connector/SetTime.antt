-- ===== src/Davis/Connector/SetTime.antt =====
-- `handleEvent` from `SENDING_WAKE_UP_SETTIME` to `WAITING_ACK_TIME_SET`: the clock of the station is
-- set; and the wait for the next measure.
use meteodata_server.Base.{true, false, not, ◌==◌, if◌then◌else◌}
use meteodata_server.Time.{DateLib}
use meteodata_server.Davis.Params.{build_settime_params}
use meteodata_server.Davis.Connector.State.{
  waiting_next_measure_tick, sending_wake_up_archive, sending_wake_up_settime, waiting_echo_settime,
  sending_settime, waiting_ack_settime, sending_settime_params, waiting_ack_time_set, ErrorCode,
  success, operation_canceled, timed_out, other_error, echo_request, settime_request, Connector,
  World,
}
use meteodata_server.Davis.Connector.Actions.{
  stop, send_request, send_buffer, recv_wake_up, recv_ack, handle_generic_errors,
  retry_transmission, wait_for_next_measure, retrying, aborting,
}

-- case State::WAITING_NEXT_MEASURE_TICK
unfoldable pub on_waiting_next_measure_tick : World → ErrorCode → Connector → Connector
unfolding send_request wait_for_next_measure
on_waiting_next_measure_tick w timed_out c =
    send_request echo_request (record c { state = sending_wake_up_archive })
on_waiting_next_measure_tick w success c = wait_for_next_measure w c
on_waiting_next_measure_tick w operation_canceled c = wait_for_next_measure w c
on_waiting_next_measure_tick w other_error c = wait_for_next_measure w c

-- case State::SENDING_WAKE_UP_SETTIME
unfoldable pub on_sending_wake_up_settime : ErrorCode → Connector → Connector
unfolding handle_generic_errors recv_wake_up
on_sending_wake_up_settime e =
    retrying e sending_wake_up_settime echo_request
      λ c. recv_wake_up (record c { state = waiting_echo_settime })

-- case State::WAITING_ECHO_SETTIME
unfoldable pub on_waiting_echo_settime : ErrorCode → Connector → Connector
unfolding handle_generic_errors send_request
on_waiting_echo_settime e =
    retrying e sending_wake_up_settime echo_request
      λ c. send_request settime_request (record c { state = sending_settime })

-- case State::SENDING_SETTIME
unfoldable pub on_sending_settime : ErrorCode → Connector → Connector
unfolding handle_generic_errors recv_ack
on_sending_settime e =
    retrying e sending_settime settime_request
      λ c. recv_ack (record c { state = waiting_ack_settime })

-- case State::WAITING_ACK_SETTIME
unfoldable pub on_waiting_ack_settime : DateLib → World → ErrorCode → Connector → Connector
unfolding handle_generic_errors retry_transmission send_buffer
on_waiting_ack_settime lib w e = retrying e sending_settime settime_request λ c.
    if not (c.ack_buffer == 0x06)
    then retry_transmission sending_settime settime_request c
    else send_buffer (build_settime_params lib c.time_offseter.timezone_info w.now)
        (record c { state = sending_settime_params })

-- case State::SENDING_SETTIME_PARAMS
unfoldable pub on_sending_settime_params : ErrorCode → Connector → Connector
unfolding stop recv_ack
on_sending_settime_params e = aborting e λ c. recv_ack (record c { state = waiting_ack_time_set })

-- case State::WAITING_ACK_TIME_SET: an error is only logged.
unfoldable pub on_waiting_ack_time_set : World → Connector → Connector
unfolding wait_for_next_measure
on_waiting_ack_time_set w c = wait_for_next_measure w (record c {
  set_time_requested = false;
  set_time_timer = true;
  state = waiting_next_measure_tick;
})
