-- ===== src/Watchdog.antt =====
-- The notifications to the watchdog of systemd (src/monitoring/watchdog.cpp). Times are microseconds.
pub mod Notifications
use meteodata_server.Base.{
  ℕ, zero, suc, ◌+◌, ◌/◌, ◌*◌, Bool, true, false, List, [], ◌∷◌, Option, none, some, leb,
  if◌then◌else◌,
}

-- The object, whether a wait of its timer is pending, and the times of its notifications, the latest first.
pub record Watchdog : Type 0 where
  pub is_stopped : Bool
  pub period : ℕ
  pub expires_at : ℕ
  pub is_waiting : Bool
  pub notifications : List ℕ

-- waitUntilNextNotification
unfoldable pub wait_until_next_notification : ℕ → Watchdog → Watchdog
wait_until_next_notification now w =
    if w.is_stopped then w else record w { expires_at = now + w.period; is_waiting = true }

-- start; `usec` is the number in WATCHDOG_USEC, if it is set.
unfoldable pub start : Option ℕ → ℕ → Watchdog → Watchdog
unfolding wait_until_next_notification
start none now w = w
start (some usec) now w =
    wait_until_next_notification now (record w { period = usec / 2; is_stopped = false })

-- stop
unfoldable pub stop : Watchdog → Watchdog
stop w = record w { is_stopped = true; is_waiting = false }

-- checkDeadline, not cancelled, with sendNotification
unfoldable pub check_deadline : ℕ → Watchdog → Watchdog
unfolding wait_until_next_notification
check_deadline now w =
    if leb w.expires_at now
    then wait_until_next_notification now (record w { notifications = now ∷ w.notifications })
    else record w { is_waiting = true }

-- The handler of the timer runs after its deadline, each time as late as the list says.
unfoldable pub runs : List ℕ → Watchdog → Watchdog
unfolding check_deadline
runs [] w = w
runs (late ∷ rest) w =
    runs rest (check_deadline (w.expires_at + late) (record w { is_waiting = false }))
