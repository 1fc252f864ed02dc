-- ===== src/Jobs.antt =====
-- The publisher of the jobs for data inserted in the past (src/async_job_publisher.cpp): the requests
-- of a station are gathered until none comes for a minute.
pub mod Debouncing
use meteodata_server.Base.{
  ℕ, Bool, ◌||◌, not, List, [], ◌∷◌, ◌++◌, Option, none, some, ◌==◌, if◌then◌else◌,
}
use meteodata_server.Base.Int.{ℤ, pos, ◌+ℤ◌, ltb_ℤ, floor_div}

-- A value of `_debouncing`: the two dates, and when the timer expires.
pub record Pending : Type 0 where
  pub begin : ℤ
  pub end : ℤ
  pub expires_at : ℤ

-- What is published to the database of jobs.
pub data Job : Type 0 where
  publish_minmax publish_anomaly_monitoring : ℕ → ℤ → ℤ → Job

-- std::map<CassUuid, ...>, each station at most once
abbrev pub Debouncing : Type 0
Debouncing = List (ℕ × Pending)

pub record AsyncJobPublisher : Type 0 where
  pub debouncing : Debouncing
  pub jobs : List Job

abbrev pub find : ℕ → Debouncing → Option Pending
find station [] = none
find station ((s, p) ∷ rest) =
    let others = find station rest in if s == station then some p else others

abbrev pub erase : ℕ → Debouncing → Debouncing
erase station [] = []
erase station ((s, p) ∷ rest) =
    let others = erase station rest in if s == station then others else (s, p) ∷ others

abbrev pub day : ℤ → ℤ
day t = floor_div t 86400

-- `begin > end || floor(begin) >= today`
abbrev pub is_ignored : ℤ → ℤ → ℤ → Bool
is_ignored now begin end = ltb_ℤ end begin || not (ltb_ℤ (day begin) (day now))

-- resetTimer
abbrev pub reset_timer : ℤ → ℤ
reset_timer now = now +ℤ pos 60

-- A pending request with one more.
abbrev pub widen : ℤ → ℤ → ℤ → Pending → Pending
widen now begin end p = record {
  begin = if ltb_ℤ begin p.begin then begin else p.begin;
  end = if ltb_ℤ p.end end then end else p.end;
  expires_at = reset_timer now;
}

-- The entry of a station, widened or added.
unfoldable pub gather : ℤ → ℤ → ℤ → ℕ → Debouncing → Debouncing
gather now begin end station [] =
    (station, record { begin = begin; end = end; expires_at = reset_timer now }) ∷ []
gather now begin end station ((s, p) ∷ rest) =
    let others = gather now begin end station rest in
    if s == station then (s, widen now begin end p) ∷ rest else (s, p) ∷ others

-- publishJobsForPastDataInsertion
unfoldable pub publish_jobs_for_past_data_insertion :
    ℤ → ℕ → ℤ → ℤ → AsyncJobPublisher → AsyncJobPublisher
publish_jobs_for_past_data_insertion now station begin end a =
    if is_ignored now begin end
    then a
    else record a { debouncing = gather now begin end station a.debouncing }

-- doPublish
unfoldable pub do_publish : ℤ → ℕ → AsyncJobPublisher → AsyncJobPublisher
do_publish now station a = elim (find station a.debouncing) [
  | none ↦ a
  | some p ↦ record {
    debouncing = erase station a.debouncing;
    jobs =
        if ltb_ℤ (day p.begin) (day now)
        then a.jobs
          ++ (publish_minmax station p.begin p.end
              ∷ publish_anomaly_monitoring station p.begin p.end
              ∷ [])
        else a.jobs;
  }
]
