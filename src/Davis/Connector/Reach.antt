-- ===== src/Davis/Connector/Reach.antt =====
-- What holds of a connector after any events, in any order, that do not reload it.
use meteodata_server.Base.{◌≤◌, ◌≡◌, ◌≢◌, true, arith}
use meteodata_server.Time.{DateLib}
use meteodata_server.Davis.Connector.State.{waiting_next_measure_tick, stopped, Connector, World}
use meteodata_server.Davis.Connector.Machine.{start, Input, step}
use meteodata_server.Davis.Connector.Invariant.{IsSound, is_waiting}
use meteodata_server.Davis.Connector.Invariant.Steps.{IsAllowed, step-IsSound, start-IsSound}

-- The connectors that events lead to from another.
pub data Reaches (lib : DateLib) (c : Connector) : Connector → Type 0 where
  here : Reaches lib c c
  next :
      {d : Connector} (w : World) (i : Input)
      → Reaches lib c d
      → IsAllowed lib w d i
      → Reaches lib c (step lib w i d)

Reaches-IsSound : {lib : DateLib} {c d : Connector} → Reaches lib c d → IsSound c → IsSound d
Reaches-IsSound here s = s
Reaches-IsSound {lib} (next {d} w i r a) s = step-IsSound lib w i d (Reaches-IsSound r s) a

-- A connector that is started with its socket open, at most four timeouts and at most 100
-- transmission errors, and that has neither stopped nor been reloaded, always waits, if no operation
-- succeeds on a closed socket: a deadline runs together with the very operation on the socket that
-- its state expects, or a retry is due; it has counted at most four timeouts and at most 100
-- transmission errors, and no timeout while it waits for the next measure.
pub never_hangs :
    (lib : DateLib) (w : World) (c d : Connector)
    → c.sock_open ≡ true
    → c.timeouts ≤ 4
    → c.transmission_errors ≤ 100
    → Reaches lib (start lib w c) d
    → d.state ≢ stopped
    → (is_waiting d.timer d.state d.io ≡ true)
      × (d.timeouts ≤ 4)
      × (d.transmission_errors ≤ 100)
      × (d.state ≡ waiting_next_measure_tick → d.timeouts ≡ 0)
never_hangs lib w c d o t e r live =
    let s = Reaches-IsSound r (start-IsSound lib w c o t e) in
    (ground (arith, s.waits), s.few_timeouts live, s.few_errors live, s.tick)
