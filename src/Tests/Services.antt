-- ===== src/Tests/Services.antt =====
-- The events, the jobs, the scheduler and the groups of connectors.
use meteodata_server.Base.{
  ℕ, ◌%◌, ◌≡◌, refl, false, none, some, [], ◌∷◌, ◌++◌, Bool, arith, length, ltb,
}
use meteodata_server.Base.Int.{ℤ, pos, ◌≤ℤ◌}
use meteodata_server.Event.{Key, Subscriptions, subscribers_of, publish}
use meteodata_server.Event.Publish.{publish-every_other, every_other, live}
use meteodata_server.Jobs.{
  AsyncJobPublisher, do_publish, find, publish_minmax, publish_anomaly_monitoring,
}
use meteodata_server.Jobs.Debouncing.{Asked, ask, ask_all, burst_covered}
use meteodata_server.Scheduler as Scheduling
use meteodata_server.ConnectorGroup as Grouping
use meteodata_server.Scheduler.{
  Scheduler, starts, reloads, timer_expires, handler_runs, wait_until_next_download,
}
use meteodata_server.Scheduler.Periods.{one_download_per_period, OncePerPeriod, here, next}

abbrev alive : ℕ → Bool
alive s = ltb s 10

abbrev key : Key
key = record { event_type = 1; station = 7 }

abbrev other_key : Key
other_key = record { event_type = 2; station = 7 }

abbrev subscriptions : Subscriptions
subscriptions = (key, 4 ∷ 5 ∷ 12 ∷ 6 ∷ []) ∷ (other_key, 5 ∷ []) ∷ []

publish-every_other_example :
    (length (subscribers_of key subscriptions) % 2 ≡ 1 → publish alive key subscriptions ≡ none)
    × (length (subscribers_of key subscriptions) % 2 ≡ 0
        → (left : Subscriptions) × (publish alive key subscriptions
            ≡ some (live alive (every_other (subscribers_of key subscriptions)), left)))
publish-every_other_example = publish-every_other alive key subscriptions

-- Two requests for the days before.
abbrev asked : Asked
asked = record { now = pos 1641643320; station = 7; begin = pos 1641500000; end = pos 1641510000 }

abbrev asked_later : Asked
asked_later = record {
  now = pos 1641643330;
  station = 7;
  begin = pos 1641400000;
  end = pos 1641505000;
}

abbrev idle : AsyncJobPublisher
idle = record { debouncing = []; jobs = [] }

burst_covered_example :
    let gathered = ask_all (asked_later ∷ []) (ask asked idle) in
    let published = do_publish (pos 1641643390) 7 gathered in
    (begin : ℤ) × (end : ℤ) × (begin ≤ℤ pos 1641500000)
    × (pos 1641510000 ≤ℤ end)
    × (published.jobs
        ≡ gathered.jobs
          ++ (publish_minmax 7 begin end ∷ publish_anomaly_monitoring 7 begin end ∷ []))
    × (find 7 published.debouncing ≡ none)
burst_covered_example = burst_covered asked (asked_later ∷ []) idle (pos 1641643390) refl refl

-- Every ten minutes, two minutes late.
abbrev scheduler : Scheduler
scheduler = record {
  must_stop = false;
  period = 600;
  offset = 120;
  expires_at = 0;
  waits = 0;
  queued = 0;
  nb_downloads = 0;
  last_download = 0;
  next_download = 0;
  last_reloaded = 0;
  downloads = [];
}

-- Started, then at the deadline twice over.
abbrev downloaded : Scheduler
downloaded = Scheduling.step 1641644521 handler_runs (
    Scheduling.step 1641644520 timer_expires (
      Scheduling.step 1641643921 handler_runs
        (Scheduling.step 1641643920 timer_expires (Scheduling.step 1641643320 starts scheduler))))

one_download_per_period_example : OncePerPeriod downloaded.period downloaded.downloads
one_download_per_period_example = one_download_per_period (omega arith) refl refl (
    next 1641644521 handler_runs
      (next 1641644520 timer_expires
        (next 1641643921 handler_runs
          (next 1641643920 timer_expires
            (next 1641643320 starts (here 1641643320) (omega arith) (λ h. ground (arith, h)))
            (omega arith) (λ h. ground (arith, h)))
          (omega arith) (λ h. ground (arith, h)))
        (omega arith) (λ h. ground (arith, h)))
      (omega arith) (λ h. ground (arith, h)))

-- 12 has expired at the start, 5 at the stop.
abbrev alive_later : ℕ → Bool
alive_later s = ltb s 5

abbrev group : Grouping.ConnectorGroup
group = record { connectors = 4 ∷ 5 ∷ 12 ∷ []; calls = [] }

gone : (s : ℕ) → alive s ≡ false → alive_later s ≡ false
gone s h = ground (arith, h)
