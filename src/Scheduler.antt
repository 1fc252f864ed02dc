-- ===== src/Scheduler.antt =====
-- The scheduler of periodic downloads (src/abstract_download_scheduler.cpp). Times are counted in the
-- unit of the period, from the epoch, on one clock. The handlers of the timer that are due stay
-- queued until they run, and `cancel` does not reach them.
pub mod Periods
use meteodata_server.Base.{
  ℕ, suc, zero, ◌+◌, ◌-◌, ◌%◌, Bool, true, false, List, ◌∷◌, leb, if◌then◌else◌,
}

-- The object: its timer with the number of its waits, and the handlers queued; `downloads` has the
-- time of each call of `download`, the latest first.
pub record Scheduler : Type 0 where
  pub must_stop : Bool
  pub period : ℕ
  pub offset : ℕ
  pub expires_at : ℕ
  pub waits : ℕ
  pub queued : ℕ
  pub nb_downloads : ℕ
  pub last_download : ℕ
  pub next_download : ℕ
  pub last_reloaded : ℕ
  pub downloads : List ℕ

-- waitUntilNextDownload: setting the deadline cancels the waits.
unfoldable pub wait_until_next_download : ℕ → Scheduler → Scheduler
wait_until_next_download now c =
    let tp = c.period - now % c.period + c.offset in
    if c.must_stop
    then c
    else record c { expires_at = now + tp; next_download = now + tp; waits = 1 }

-- start
unfoldable pub start : ℕ → Scheduler → Scheduler
unfolding wait_until_next_download
start now c =
    wait_until_next_download now
      (record c { must_stop = false; last_reloaded = now; nb_downloads = 0 })

-- stop
unfoldable pub stop : Scheduler → Scheduler
stop c = record c { must_stop = true; waits = 0 }

-- reload
unfoldable pub reload : ℕ → Scheduler → Scheduler
unfolding wait_until_next_download
reload now c =
    wait_until_next_download now (record c { waits = 0; last_reloaded = now; nb_downloads = 0 })

-- checkDeadline, not cancelled; an exception of `download` is caught.
unfoldable pub check_deadline : ℕ → Scheduler → Scheduler
unfolding wait_until_next_download
check_deadline now c =
    if leb c.expires_at now
    then wait_until_next_download now (record c {
      nb_downloads = c.nb_downloads + 1;
      last_download = now;
      downloads = now ∷ c.downloads;
    })
    else record c { waits = c.waits + 1 }

pub data Input : Type 0 where
  starts stops reloads timer_expires handler_runs : Input

unfoldable pub step : ℕ → Input → Scheduler → Scheduler
unfolding start stop reload check_deadline
step now starts c = start now c
step now stops c = stop c
step now reloads c = reload now c
step now timer_expires c =
    if leb c.expires_at now then record c { queued = c.queued + c.waits; waits = 0 } else c
step now handler_runs c = elim c.queued [
  | zero ↦ c
  | suc n ↦ check_deadline now (record c { queued = n })
]
