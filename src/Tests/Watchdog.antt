-- ===== src/Tests/Watchdog.antt =====
-- A watchdog asked for 30 s.
use meteodata_server.Base.{◌≡◌, refl, true, false, [], ◌∷◌, some, arith, length}
use meteodata_server.Watchdog.{Watchdog, start, runs}
use meteodata_server.Watchdog.Notifications.{AreClose, notified_in_time}

abbrev watchdog : Watchdog
watchdog = record {
  is_stopped = true;
  period = 0;
  expires_at = 0;
  is_waiting = false;
  notifications = [];
}

notified_in_time_example :
    let w' = runs (20 ∷ 1500 ∷ []) (start (some 30000000) 7 watchdog) in
    (length w'.notifications ≡ 2) × AreClose 30000000 7 w'.notifications
notified_in_time_example =
    notified_in_time 30000000 7 (20 ∷ 1500 ∷ []) watchdog refl (omega arith, (omega arith, tt))
