-- ===== src/Davis/Connector/Invariant/SetTime.antt =====
-- The handlers of the clock setting, and of the wait for the next measure, keep the connector sound.
use meteodata_server.Base.{◌≡◌, arith}
use meteodata_server.Time.{DateLib}
use meteodata_server.Davis.Connector.State.{
  waiting_next_measure_tick, sending_wake_up_settime, waiting_echo_settime, sending_settime,
  waiting_ack_settime, sending_settime_params, waiting_ack_time_set, ErrorCode, Connector, World,
}
use meteodata_server.Davis.Connector.SetTime.{
  on_waiting_next_measure_tick, on_sending_wake_up_settime, on_waiting_echo_settime,
  on_sending_settime, on_waiting_ack_settime, on_sending_settime_params, on_waiting_ack_time_set,
}
use meteodata_server.Davis.Connector.Invariant.{IsSound, IsReady}

pub on_waiting_next_measure_tick-IsSound :
    (w : World) (e : ErrorCode) (c : Connector)
    → c.state ≡ waiting_next_measure_tick
    → IsReady e c
    → IsSound (on_waiting_next_measure_tick w e c)
unfolding on_waiting_next_measure_tick
on_waiting_next_measure_tick-IsSound w e c h r = ground arith

pub on_sending_wake_up_settime-IsSound :
    (e : ErrorCode) (c : Connector)
    → c.state ≡ sending_wake_up_settime
    → IsReady e c
    → IsSound (on_sending_wake_up_settime e c)
unfolding on_sending_wake_up_settime
on_sending_wake_up_settime-IsSound e c h r = ground arith

pub on_waiting_echo_settime-IsSound :
    (e : ErrorCode) (c : Connector)
    → c.state ≡ waiting_echo_settime
    → IsReady e c
    → IsSound (on_waiting_echo_settime e c)
unfolding on_waiting_echo_settime
on_waiting_echo_settime-IsSound e c h r = ground arith

pub on_sending_settime-IsSound :
    (e : ErrorCode) (c : Connector)
    → c.state ≡ sending_settime
    → IsReady e c
    → IsSound (on_sending_settime e c)
unfolding on_sending_settime
on_sending_settime-IsSound e c h r = ground arith

pub on_waiting_ack_settime-IsSound :
    (lib : DateLib) (w : World) (e : ErrorCode) (c : Connector)
    → c.state ≡ waiting_ack_settime
    → IsReady e c
    → IsSound (on_waiting_ack_settime lib w e c)
unfolding on_waiting_ack_settime
on_waiting_ack_settime-IsSound lib w e c h r = ground arith

pub on_sending_settime_params-IsSound :
    (e : ErrorCode) (c : Connector)
    → c.state ≡ sending_settime_params
    → IsReady e c
    → IsSound (on_sending_settime_params e c)
unfolding on_sending_settime_params
on_sending_settime_params-IsSound e c h r = ground arith

pub on_waiting_ack_time_set-IsSound :
    (w : World) (e : ErrorCode) (c : Connector)
    → c.state ≡ waiting_ack_time_set
    → IsReady e c
    → IsSound (on_waiting_ack_time_set w c)
unfolding on_waiting_ack_time_set
on_waiting_ack_time_set-IsSound w e c h r = ground arith
