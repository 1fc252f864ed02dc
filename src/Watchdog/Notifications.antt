-- ===== src/Watchdog/Notifications.antt =====
-- How far apart the notifications are.
use meteodata_server.Base.{
  ℕ, ◌+◌, ◌/◌, ◌≤◌, ◌≡◌, refl, ap, true, false, List, [], ◌∷◌, some, leb, All, length, arith,
}
use meteodata_server.Watchdog.{Watchdog, wait_until_next_notification, start, check_deadline, runs}

-- Each of the times, the latest first, comes at most `gap` after the one before, and the first at most `gap`
-- after a start.
abbrev pub AreClose : ℕ → ℕ → List ℕ → Type 0
AreClose gap begin [] = Unit
AreClose gap begin (t ∷ []) = t ≤ begin + gap
AreClose gap begin (t ∷ s ∷ rest) = (t ≤ s + gap) × AreClose gap begin (s ∷ rest)

abbrev last_or : ℕ → List ℕ → ℕ
last_or begin [] = begin
last_or begin (t ∷ rest) = t

leb_late : (n late : ℕ) → leb n (n + late) ≡ true
leb_late n late = ground arith

close_step :
    (gap begin t : ℕ) (ns : List ℕ)
    → t ≤ last_or begin ns + gap
    → AreClose gap begin ns
    → AreClose gap begin (t ∷ ns)
close_step gap begin t [] h c = h
close_step gap begin t (s ∷ rest) h c = (h, c)

check_lem :
    (late : ℕ) (w : Watchdog)
    → w.is_stopped ≡ false
    → let t = w.expires_at + late in
      check_deadline t (record w { is_waiting = false }) ≡ record w {
        expires_at = t + w.period;
        is_waiting = true;
        notifications = t ∷ w.notifications;
      }
unfolding check_deadline wait_until_next_notification
check_lem late w h = rw (leb_late w.expires_at late, h) refl

runs_end : (w : Watchdog) → runs [] w ≡ w
unfolding runs
runs_end w = refl

runs_cons :
    (late : ℕ) (rest : List ℕ) (w : Watchdog)
    → w.is_stopped ≡ false
    → let t = w.expires_at + late in
      runs (late ∷ rest) w
      ≡ runs rest (record w {
        expires_at = t + w.period;
        is_waiting = true;
        notifications = t ∷ w.notifications;
      })
unfolding runs
runs_cons late rest w h = ap (runs rest) (check_lem late w h)

runs_close :
    (gap begin : ℕ) (lates : List ℕ) (w : Watchdog)
    → w.is_stopped ≡ false
    → w.expires_at ≡ last_or begin w.notifications + w.period
    → All (λ late. w.period + late ≤ gap) lates
    → AreClose gap begin w.notifications
    → let w' = runs lates w in
      (length w'.notifications ≡ length lates + length w.notifications)
      × AreClose gap begin w'.notifications
runs_close gap begin [] w h e small close = rw (runs_end w) (omega arith, close)
runs_close gap begin (late ∷ rest) w h e (first, small) close =
    let t = w.expires_at + late in
    let next = record w {
      expires_at = t + w.period;
      is_waiting = true;
      notifications = t ∷ w.notifications;
    } in
    let (count, all_close) =
      runs_close gap begin rest next h refl small
        (close_step gap begin t w.notifications (omega (arith, e, first)) close) in
    rw (runs_cons late rest w h) (omega (arith, count), all_close)

halves : (usec late : ℕ) → late ≤ usec / 2 → usec / 2 + late ≤ usec
halves usec late h = omega (arith, h)

All-halves :
    (usec : ℕ) (lates : List ℕ)
    → All (λ late. late ≤ usec / 2) lates
    → All (λ late. usec / 2 + late ≤ usec) lates
All-halves usec [] h = tt
All-halves usec (late ∷ rest) (first, more) = (halves usec late first, All-halves usec rest more)

-- A watchdog started with the period that systemd asks for, whose handlers each run at most half of it after
-- their deadline, makes one notification for each of them, the first within that period after the start
-- and each other one within it after the one before.
pub notified_in_time :
    (usec now : ℕ) (lates : List ℕ) (w : Watchdog)
    → w.notifications ≡ []
    → All (λ late. late ≤ usec / 2) lates
    → let w' = runs lates (start (some usec) now w) in
      (length w'.notifications ≡ length lates) × AreClose usec now w'.notifications
unfolding start wait_until_next_notification
notified_in_time usec now lates w none_yet small =
    let begun = record w {
      is_stopped = false;
      period = usec / 2;
      expires_at = now + usec / 2;
      is_waiting = true;
    } in
    let (count, all_close) =
      runs_close usec now lates begun refl (rw none_yet refl) (All-halves usec lates small)
        (rw none_yet tt) in
    (omega (arith, count, ap length none_yet), all_close)
