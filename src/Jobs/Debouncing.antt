-- ===== src/Jobs/Debouncing.antt =====
-- The jobs published for a burst of requests cover all of them, and no other station is touched.
use meteodata_server.Base.{
  ℕ, ◌≡◌, ◌∙◌, refl, ap, ==_iff, true, false, arith, List, [], ◌∷◌, ◌++◌, Option, none, some, ◌==◌,
  if◌then◌else◌, Bool-cases, inl, inr,
}
use meteodata_server.Base.Int.{ℤ, ltb_ℤ, ◌≤ℤ◌}
use meteodata_server.Jobs.{
  Pending, AsyncJobPublisher, Debouncing, publish_minmax, publish_anomaly_monitoring, find, erase,
  is_ignored, gather, widen, reset_timer, day, publish_jobs_for_past_data_insertion, do_publish,
}

-- A request, and when it is made.
pub record Asked : Type 0 where
  pub now : ℤ
  pub station : ℕ
  pub begin : ℤ
  pub end : ℤ

abbrev pub ask : Asked → AsyncJobPublisher → AsyncJobPublisher
ask r = publish_jobs_for_past_data_insertion r.now r.station r.begin r.end

abbrev pub ask_all : List Asked → AsyncJobPublisher → AsyncJobPublisher
ask_all [] a = a
ask_all (r ∷ rs) a = ask_all rs (ask r a)

-- A pending request of a station that covers two dates.
abbrev pub Covers : ℕ → ℤ → ℤ → AsyncJobPublisher → Type 0
Covers station begin end a =
    (p : Pending) × (find station a.debouncing ≡ some p) × (p.begin ≤ℤ begin) × (end ≤ℤ p.end)

==_refl : (n : ℕ) → (n == n) ≡ true
==_refl n = ground arith

==_apart : (a b c : ℕ) → (a == b) ≡ true → (b == c) ≡ false → (a == c) ≡ false
==_apart a b c h g = ground arith

-- The entry of a station after a request, from the one before.
abbrev with_request : ℤ → ℤ → ℤ → Option Pending → Pending
with_request now begin end none = record { begin = begin; end = end; expires_at = reset_timer now }
with_request now begin end (some p) = widen now begin end p

with_request_covers :
    (now begin end : ℤ) (o : Option Pending)
    → ((with_request now begin end o).begin ≤ℤ begin) × (end ≤ℤ (with_request now begin end o).end)
with_request_covers now begin end none = (omega arith, omega arith)
with_request_covers now begin end (some p) = ground arith

with_request_widens :
    (now begin end : ℤ) (p : Pending)
    → ((with_request now begin end (some p)).begin ≤ℤ p.begin)
      × (p.end ≤ℤ (with_request now begin end (some p)).end)
with_request_widens now begin end p = ground arith

module _ (now begin end : ℤ) where
  find-gather_same :
      (station : ℕ) (d : Debouncing)
      → find station (gather now begin end station d)
        ≡ some (with_request now begin end (find station d))
  unfolding gather
  find-gather_same station [] = rw (==_refl station)
  find-gather_same station ((s, p) ∷ rest) = elim (Bool-cases (s == station)) [
    | inl same ↦ rw same (rw same refl)
    | inr differs ↦ rw differs (rw differs (find-gather_same station rest))
  ]

  find-gather_other :
      (station other : ℕ) (d : Debouncing)
      → (station == other) ≡ false
      → find other (gather now begin end station d) ≡ find other d
  unfolding gather
  find-gather_other station other [] n = rw n
  find-gather_other station other ((s, p) ∷ rest) n = elim (Bool-cases (s == station)) [
    | inl same ↦ rw same (rw (==_apart s station other same n) refl)
    | inr differs ↦
        rw differs
          (ap (λ o. if s == other then some p else o) (find-gather_other station other rest n))
  ]

module _ (r : Asked) (a : AsyncJobPublisher) where
  ask_ignored : is_ignored r.now r.begin r.end ≡ true → ask r a ≡ a
  unfolding publish_jobs_for_past_data_insertion
  ask_ignored h = rw h

  ask_accepted :
      is_ignored r.now r.begin r.end ≡ false
      → (ask r a).debouncing ≡ gather r.now r.begin r.end r.station a.debouncing
  unfolding publish_jobs_for_past_data_insertion
  ask_accepted h = rw h

-- A request keeps what is pending covered.
ask-Covers :
    (r : Asked) (station : ℕ) (begin end : ℤ) (a : AsyncJobPublisher)
    → Covers station begin end a
    → Covers station begin end (ask r a)
ask-Covers r station begin end a (p, found, b, e) =
    elim (Bool-cases (is_ignored r.now r.begin r.end)) [
      | inl ignored ↦ rw (ask_ignored r a ignored) (p, found, b, e)
      | inr accepted ↦ elim (Bool-cases (r.station == station)) [
        | inr other ↦ (
          p,
          ap (find station) (ask_accepted r a accepted)
              ∙ (find-gather_other r.now r.begin r.end r.station station a.debouncing other
                  ∙ found),
          b,
          e,
        )
        | inl same ↦
            let wider = with_request_widens r.now r.begin r.end p in
            (
              widen r.now r.begin r.end p,
              ap (find station) (ask_accepted r a accepted)
                  ∙ (ap (λ s. find station (gather r.now r.begin r.end s a.debouncing))
                        ((==_iff r.station station).0 same)
                      ∙ (find-gather_same r.now r.begin r.end station a.debouncing
                          ∙ ap (λ o. some (with_request r.now r.begin r.end o)) found)),
              omega (arith, wider.0, b),
              omega (arith, wider.1, e),
            )
      ]
    ]

ask_all-Covers :
    (rs : List Asked) (station : ℕ) (begin end : ℤ) (a : AsyncJobPublisher)
    → Covers station begin end a
    → Covers station begin end (ask_all rs a)
ask_all-Covers [] station begin end a c = c
ask_all-Covers (r ∷ rs) station begin end a c =
    ask_all-Covers rs station begin end (ask r a) (ask-Covers r station begin end a c)

ask-Covers_own :
    (r : Asked) (a : AsyncJobPublisher)
    → is_ignored r.now r.begin r.end ≡ false
    → Covers r.station r.begin r.end (ask r a)
ask-Covers_own r a accepted =
    let fresh = with_request_covers r.now r.begin r.end (find r.station a.debouncing) in
    (
      with_request r.now r.begin r.end (find r.station a.debouncing),
      ap (find r.station) (ask_accepted r a accepted)
          ∙ find-gather_same r.now r.begin r.end r.station a.debouncing,
      fresh.0,
      fresh.1,
    )

find-erase : (station : ℕ) (d : Debouncing) → find station (erase station d) ≡ none
find-erase station [] = refl
find-erase station ((s, p) ∷ rest) = elim (Bool-cases (s == station)) [
  | inl same ↦ rw same (find-erase station rest)
  | inr differs ↦ rw differs (rw differs (find-erase station rest))
]

day_mono : (a b : ℤ) → a ≤ℤ b → day a ≤ℤ day b
day_mono a b h = ground arith

do_publish_lem :
    (now : ℤ) (station : ℕ) (a : AsyncJobPublisher) (p : Pending)
    → find station a.debouncing ≡ some p
    → ltb_ℤ (day p.begin) (day now) ≡ true
    → ((do_publish now station a).jobs
        ≡ a.jobs
          ++ (publish_minmax station p.begin p.end
              ∷ publish_anomaly_monitoring station p.begin p.end
              ∷ []))
      × ((do_publish now station a).debouncing ≡ erase station a.debouncing)
unfolding do_publish
do_publish_lem now station a p found past = rw (found, do_publish) (rw past (refl, refl))

-- A request that is not ignored is not lost: whatever requests come after it, for its station and
-- for others, when the timer of its station expires, on a later day than its beginning, one pair
-- of jobs is published for that station, over dates that cover those of the request, and nothing
-- is left pending for the station.
pub burst_covered :
    (r : Asked) (after : List Asked) (a : AsyncJobPublisher) (now : ℤ)
    → is_ignored r.now r.begin r.end ≡ false
    → ltb_ℤ (day r.begin) (day now) ≡ true
    → let gathered = ask_all after (ask r a) in
      let published = do_publish now r.station gathered in
      (begin : ℤ) × (end : ℤ) × (begin ≤ℤ r.begin)
      × (r.end ≤ℤ end)
      × (published.jobs
          ≡ gathered.jobs
            ++ (publish_minmax r.station begin end
                ∷ publish_anomaly_monitoring r.station begin end
                ∷ []))
      × (find r.station published.debouncing ≡ none)
burst_covered r after a now accepted past =
    let (p, found, b, e) =
      ask_all-Covers after r.station r.begin r.end (ask r a) (ask-Covers_own r a accepted) in
    let earlier = day_mono p.begin r.begin b in
    let (jobs, left) =
      do_publish_lem now r.station (ask_all after (ask r a)) p found
        (ground (arith, past, earlier)) in
    (
      p.begin,
      p.end,
      b,
      e,
      jobs,
      ap (find r.station) left ∙ find-erase r.station (ask_all after (ask r a)).debouncing,
    )
