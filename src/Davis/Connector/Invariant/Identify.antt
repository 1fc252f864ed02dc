-- ===== src/Davis/Connector/Invariant/Identify.antt =====
-- The handlers of the identification keep the connector sound.
use meteodata_server.Base.{◌≡◌, arith}
use meteodata_server.Davis.Connector.State.{
  sending_wake_up_station, waiting_echo_station, sending_req_station, waiting_ack_station,
  waiting_data_station, sending_req_main_mode, waiting_ack_main_mode, sending_req_timezone,
  waiting_ack_timezone, waiting_data_timezone, ErrorCode, Connector, World,
}
use meteodata_server.Davis.Connector.Identify.{
  on_sending_wake_up_station, on_waiting_echo_station, on_sending_req_station,
  on_waiting_ack_station, on_waiting_data_station, on_sending_req_main_mode,
  on_waiting_ack_main_mode, on_sending_req_timezone, on_waiting_ack_timezone,
  on_waiting_data_timezone,
}
use meteodata_server.Davis.Connector.Invariant.{IsSound, IsReady}

pub on_sending_wake_up_station-IsSound :
    (e : ErrorCode) (c : Connector)
    → c.state ≡ sending_wake_up_station
    → IsReady e c
    → IsSound (on_sending_wake_up_station e c)
unfolding on_sending_wake_up_station
on_sending_wake_up_station-IsSound e c h r = ground arith

pub on_waiting_echo_station-IsSound :
    (e : ErrorCode) (c : Connector)
    → c.state ≡ waiting_echo_station
    → IsReady e c
    → IsSound (on_waiting_echo_station e c)
unfolding on_waiting_echo_station
on_waiting_echo_station-IsSound e c h r = ground arith

pub on_sending_req_station-IsSound :
    (e : ErrorCode) (c : Connector)
    → c.state ≡ sending_req_station
    → IsReady e c
    → IsSound (on_sending_req_station e c)
unfolding on_sending_req_station
on_sending_req_station-IsSound e c h r = ground arith

pub on_waiting_ack_station-IsSound :
    (e : ErrorCode) (c : Connector)
    → c.state ≡ waiting_ack_station
    → IsReady e c
    → IsSound (on_waiting_ack_station e c)
unfolding on_waiting_ack_station
on_waiting_ack_station-IsSound e c h r = ground arith

pub on_waiting_data_station-IsSound :
    (w : World) (e : ErrorCode) (c : Connector)
    → c.state ≡ waiting_data_station
    → IsReady e c
    → IsSound (on_waiting_data_station w e c)
unfolding on_waiting_data_station
on_waiting_data_station-IsSound w e c h r = ground arith

pub on_sending_req_main_mode-IsSound :
    (e : ErrorCode) (c : Connector)
    → c.state ≡ sending_req_main_mode
    → IsReady e c
    → IsSound (on_sending_req_main_mode e c)
unfolding on_sending_req_main_mode
on_sending_req_main_mode-IsSound e c h r = ground arith

pub on_waiting_ack_main_mode-IsSound :
    (e : ErrorCode) (c : Connector)
    → c.state ≡ waiting_ack_main_mode
    → IsReady e c
    → IsSound (on_waiting_ack_main_mode e c)
unfolding on_waiting_ack_main_mode
on_waiting_ack_main_mode-IsSound e c h r = ground arith

pub on_sending_req_timezone-IsSound :
    (e : ErrorCode) (c : Connector)
    → c.state ≡ sending_req_timezone
    → IsReady e c
    → IsSound (on_sending_req_timezone e c)
unfolding on_sending_req_timezone
on_sending_req_timezone-IsSound e c h r = ground arith

pub on_waiting_ack_timezone-IsSound :
    (e : ErrorCode) (c : Connector)
    → c.state ≡ waiting_ack_timezone
    → IsReady e c
    → IsSound (on_waiting_ack_timezone e c)
unfolding on_waiting_ack_timezone
on_waiting_ack_timezone-IsSound e c h r = ground arith

pub on_waiting_data_timezone-IsSound :
    (w : World) (e : ErrorCode) (c : Connector)
    → c.state ≡ waiting_data_timezone
    → IsReady e c
    → IsSound (on_waiting_data_timezone w e c)
unfolding on_waiting_data_timezone
on_waiting_data_timezone-IsSound w e c h r = ground arith
