-- ===== src/Scheduler/Periods.antt =====
-- When downloads happen.
use native.Mathlib.Nat.{div-add-mod, mod-lt, le-div_iff_mul-le, mul-div-le}
use meteodata_server.Base.{
  ℕ, suc, zero, ◌+◌, ◌-◌, ◌*◌, ◌/◌, ◌%◌, ◌≤◌, ◌<◌, ◌≡◌, ◌≢◌, refl, true, false, arith, List, [],
  ◌∷◌, leb, leb→le, inl, inr, Bool-cases,
}
use meteodata_server.Scheduler.{
  Scheduler, wait_until_next_download, start, stop, reload, check_deadline, Input, starts, stops,
  reloads, timer_expires, handler_runs, step,
}

deadline_lem :
    (now p offset : ℕ) → 0 < p → now + (p - now % p + offset) ≡ p * (now / p + 1) + offset
deadline_lem now p offset h = omega (arith, div-add-mod now p, mod-lt now h)

-- In a scheduler of positive period that is not stopped, the wait until the next download ends
-- `offset` after the start of a period, strictly later than `offset` from now and at most one
-- period after that.
pub wait_until_next_download_lem :
    (now : ℕ) (c : Scheduler)
    → 0 < c.period
    → c.must_stop ≡ false
    → let e = (wait_until_next_download now c).expires_at in
      (e ≡ c.period * (now / c.period + 1) + c.offset)
      × (now + c.offset < e)
      × (e ≤ now + c.period + c.offset)
unfolding wait_until_next_download
wait_until_next_download_lem now c h m =
    rw m (deadline_lem now c.period c.offset h, omega (arith, mod-lt now h), omega arith)

-- In a stopped scheduler with no handler of the timer pending or in the queue, no event but a
-- start, a reload included, makes a download, and the scheduler stays so.
pub stopped_downloads_nothing :
    (now : ℕ) (i : Input) (c : Scheduler)
    → i ≢ starts
    → c.must_stop ≡ true
    → c.waits ≡ 0
    → c.queued ≡ 0
    → let c' = step now i c in
      (c'.downloads ≡ c.downloads) × (c'.must_stop ≡ true) × (c'.waits ≡ 0) × (c'.queued ≡ 0)
unfolding step start stop reload check_deadline wait_until_next_download
stopped_downloads_nothing now starts c n m w q = absurd (n refl)
stopped_downloads_nothing now stops c n m w q = (refl, refl, refl, q)
stopped_downloads_nothing now reloads c n m w q = rw m (refl, refl, refl, q)
stopped_downloads_nothing now timer_expires c n m w q = ground arith
stopped_downloads_nothing now handler_runs c n m w q = rw q (refl, m, w, refl)

module _ (p : ℕ) where
  -- A download in each of several periods, the latest first.
  abbrev pub OncePerPeriod : List ℕ → Type 0
  OncePerPeriod [] = Unit
  OncePerPeriod (d ∷ []) = Unit
  OncePerPeriod (d ∷ e ∷ rest) = (e / p < d / p) × OncePerPeriod (e ∷ rest)

  -- The last download was in a period before that of the deadline.
  abbrev IsBefore : ℕ → List ℕ → Type 0
  IsBefore t [] = Unit
  IsBefore t (d ∷ rest) = d / p < t / p

  div_mono : (a b : ℕ) → 0 < p → a ≤ b → a / p ≤ b / p
  div_mono a b h l = (le-div_iff_mul-le h).1 (omega (arith, mul-div-le a p))

  next_period : (q x : ℕ) → 0 < p → q < (p * (q + 1) + x) / p
  next_period q x h = (le-div_iff_mul-le h).1 (omega arith)

  IsBefore-cons : (d t : ℕ) (rest : List ℕ) → d / p < t / p → IsBefore t (d ∷ rest)
  IsBefore-cons d t rest h = h

abbrev IsPast : ℕ → List ℕ → Type 0
IsPast now [] = Unit
IsPast now (d ∷ rest) = d ≤ now

IsPast-mono : (s t : ℕ) (ds : List ℕ) → s ≤ t → IsPast s ds → IsPast t ds
IsPast-mono s t [] h a = tt
IsPast-mono s t (d ∷ ds) h a = omega arith

IsBefore-next :
    (p now x : ℕ) (ds : List ℕ) → 0 < p → IsPast now ds → IsBefore p (p * (now / p + 1) + x) ds
IsBefore-next p now x [] h a = tt
IsBefore-next p now x (d ∷ ds) h a =
    omega (arith, next_period p (now / p) x h, div_mono p d now h a)

-- A download once the deadline is reached.
OncePerPeriod-due :
    (p t now : ℕ) (ds : List ℕ)
    → 0 < p
    → t ≤ now
    → OncePerPeriod p ds
    → IsBefore p t ds
    → OncePerPeriod p (now ∷ ds)
OncePerPeriod-due p t now [] h l o b = tt
OncePerPeriod-due p t now (d ∷ ds) h l o b = (omega (arith, div_mono p t now h l), o)

-- What holds of a scheduler that has not been stopped, at a given time.
record IsOnTime (now : ℕ) (c : Scheduler) : Type 0 where
  pub positive : 0 < c.period
  pub going : c.must_stop ≡ false
  pub once : OncePerPeriod c.period c.downloads
  pub before : IsBefore c.period c.expires_at c.downloads
  pub past : IsPast now c.downloads

wait-IsOnTime :
    (now : ℕ) (c : Scheduler)
    → 0 < c.period
    → c.must_stop ≡ false
    → OncePerPeriod c.period c.downloads
    → IsPast now c.downloads
    → IsOnTime now (wait_until_next_download now c)
unfolding wait_until_next_download
wait-IsOnTime now c h m o a = rw m (record {
  positive = h;
  going = refl;
  once = o;
  before =
      rw (deadline_lem now c.period c.offset h)
        (IsBefore-next c.period now c.offset c.downloads h a);
  past = a;
})

IsOnTime-later : (s now : ℕ) (c : Scheduler) → s ≤ now → IsOnTime s c → IsOnTime now c
IsOnTime-later s now c l h = record {
  positive = h.positive;
  going = h.going;
  once = h.once;
  before = h.before;
  past = IsPast-mono s now c.downloads l h.past;
}

check-IsOnTime :
    (now n : ℕ) (c : Scheduler)
    → IsOnTime now c
    → IsOnTime now (check_deadline now (record c { queued = n }))
unfolding check_deadline
check-IsOnTime now n c h = elim (Bool-cases (leb c.expires_at now)) [
  | inl due ↦ rw due (
      wait-IsOnTime now
        (record c {
          queued = n;
          nb_downloads = c.nb_downloads + 1;
          last_download = now;
          downloads = now ∷ c.downloads;
        })
        h.positive h.going
        (OncePerPeriod-due c.period c.expires_at now c.downloads h.positive (leb→le _ _ due) h.once
          h.before)
        (omega arith))
  | inr early ↦ rw early (record {
    positive = h.positive;
    going = h.going;
    once = h.once;
    before = h.before;
    past = h.past;
  })
]

run-IsOnTime :
    (now n : ℕ) (c : Scheduler)
    → IsOnTime now c
    → IsOnTime now (elim n as (λ _. Scheduler) [
      | zero ↦ c
      | suc m ↦ check_deadline now (record c { queued = m })
    ])
run-IsOnTime now zero c h = h
run-IsOnTime now (suc n) c h = check-IsOnTime now n c h

step-IsOnTime :
    (s now : ℕ) (i : Input) (c : Scheduler)
    → s ≤ now
    → i ≢ stops
    → IsOnTime s c
    → IsOnTime now (step now i c)
unfolding step start reload
step-IsOnTime s now starts c l n h =
    wait-IsOnTime now (record c { must_stop = false; last_reloaded = now; nb_downloads = 0 })
      h.positive refl h.once (IsPast-mono s now c.downloads l h.past)
step-IsOnTime s now stops c l n h = absurd (n refl)
step-IsOnTime s now reloads c l n h =
    wait-IsOnTime now (record c { waits = 0; last_reloaded = now; nb_downloads = 0 }) h.positive
      h.going h.once (IsPast-mono s now c.downloads l h.past)
step-IsOnTime s now timer_expires c l n h = elim (Bool-cases (leb c.expires_at now)) [
  | inl due ↦ rw due (record {
    positive = h.positive;
    going = h.going;
    once = h.once;
    before = h.before;
    past = IsPast-mono s now c.downloads l h.past;
  })
  | inr early ↦ rw early (IsOnTime-later s now c l h)
]
step-IsOnTime s now handler_runs c l n h = run-IsOnTime now c.queued c (IsOnTime-later s now c l h)

-- A scheduler after events that are not stops, each at its time, and the time of the last one.
pub data Reaches (c : Scheduler) : ℕ → Scheduler → Type 0 where
  here : (now : ℕ) → Reaches c now c
  next :
      {s : ℕ} {d : Scheduler} (now : ℕ) (i : Input)
      → Reaches c s d
      → s ≤ now
      → i ≢ stops
      → Reaches c now (step now i d)

Reaches-IsOnTime :
    {c d : Scheduler} {now : ℕ} → Reaches c now d → ((t : ℕ) → IsOnTime t c) → IsOnTime now d
Reaches-IsOnTime (here now) h = h now
Reaches-IsOnTime (next {s} {d} now i r l n) h = step-IsOnTime s now i d l n (Reaches-IsOnTime r h)

-- A scheduler of positive period that has downloaded nothing yet and is not stopped downloads at
-- most once in each period, counted from the epoch, whatever starts, reloads, expirations of its
-- timer and late or repeated handlers happen, in the order of time.
pub one_download_per_period :
    {c d : Scheduler} {now : ℕ}
    → 0 < c.period
    → c.must_stop ≡ false
    → c.downloads ≡ []
    → Reaches c now d
    → OncePerPeriod d.period d.downloads
one_download_per_period p m e r =
    (Reaches-IsOnTime r (λ t. record {
      positive = p;
      going = m;
      once = rw e tt;
      before = rw e tt;
      past = rw e tt;
    })).once
