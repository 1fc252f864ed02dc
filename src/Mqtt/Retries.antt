-- ===== src/Mqtt/Retries.antt =====
-- When a subscriber connects again after connections that fail.
use Prim.Native.Nat.{min}
use native.Mathlib.Nat.{two-pow-succ, pow-le-pow_right}
use meteodata_server.Base.{
  ℕ, zero, suc, ◌+◌, ◌*◌, ◌^◌, ◌≤◌, ◌≡◌, inl, inr, refl, ap, ◌∙◌, true, false, List, [], ◌∷◌, ◌++◌,
  Bytes, some, leb, ltb, arith, length, if◌then◌else◌, Bool-cases,
}
use meteodata_server.Mqtt.{
  MqttSubscriber, StationDetails, Input, ShortStatus, connacks, closes, errors, timer_expires,
  handler_runs, error, connection_closed, failed_to_connect, run, step, start, on_connack,
  handle_close, handle_error, check_retry_start_deadline, backoff,
}

-- How a connection fails: its client reports an error, is closed, or is refused by the broker and closed
-- some time after.
pub data Reason : Type 0 where
  broken closed : Reason
  refused : (closed_after : ℕ) → (Bytes → ℕ) → Reason

-- A connection that fails some time after it was asked for; its timer is noticed late, and the handler of
-- the timer runs later still.
pub record Failure : Type 0 where
  pub after : ℕ
  pub reason : Reason
  pub late : ℕ
  pub queued_for : ℕ

abbrev pub power_of_two : ℕ → ℕ
power_of_two zero = 1
power_of_two (suc n) = let half = power_of_two n in half + half

-- The wait before the next connection, after `r` others: 10 s, and after an error a power of two that doubles
-- with each of them until 256 s.
abbrev pub wait : Reason → ℕ → ℕ
wait broken r = 10 + (if ltb r 8 then power_of_two r else 256)
wait closed r = 10
wait (refused closed_after ids) r = 10

-- When the wait begins, for a connection that fails at a time.
abbrev pub failed_at : ℕ → Reason → ℕ
failed_at now broken = now
failed_at now closed = now
failed_at now (refused closed_after ids) = now + closed_after

abbrev pub failure_inputs : ℕ → Reason → List (ℕ × Input)
failure_inputs now broken = (now, errors) ∷ []
failure_inputs now closed = (now, closes) ∷ []
failure_inputs now (refused closed_after ids) =
    (now, connacks false ids) ∷ (now + closed_after, closes) ∷ []

-- When the timer is noticed, for a connection asked for at a time, and when its handler runs.
abbrev pub noticed_at : ℕ → ℕ → Failure → ℕ
noticed_at now r f = failed_at (now + f.after) f.reason + wait f.reason r + f.late

abbrev pub retried_at : ℕ → ℕ → Failure → ℕ
retried_at now r f = noticed_at now r f + f.queued_for

-- What happens to a subscriber that has connected `r` times, the last one at a time.
abbrev pub failures : ℕ → ℕ → List Failure → List (ℕ × Input)
failures now r [] = []
failures now r (f ∷ fs) =
    failure_inputs (now + f.after) f.reason
    ++ ((noticed_at now r f, timer_expires)
        ∷ (retried_at now r f, handler_runs)
        ∷ failures (retried_at now r f) (r + 1) fs)

-- The times of the connections that follow, added to some, the latest first.
abbrev pub retry_times : ℕ → ℕ → List Failure → List ℕ → List ℕ
retry_times now r [] before = before
retry_times now r (f ∷ fs) before =
    let t = retried_at now r f in retry_times t (r + 1) fs (t ∷ before)

-- The time of the last one.
abbrev pub failures_end : ℕ → ℕ → List Failure → ℕ
failures_end now r [] = now
failures_end now r (f ∷ fs) = failures_end (retried_at now r f) (r + 1) fs

-- All the time that is not a wait.
abbrev pub delays : List Failure → ℕ
delays [] = 0
delays (f ∷ fs) = failed_at f.after f.reason + f.late + f.queued_for + delays fs

power_lem : (n : ℕ) → 2 ^ n ≡ power_of_two n
power_lem zero = refl
power_lem (suc n) = two-pow-succ n ∙ ap (λ p. p + p) (power_lem n)

capped : (r : ℕ) → 2 ^ min r 8 ≡ (if ltb r 8 then power_of_two r else 256)
capped r = elim (Bool-cases (ltb r 8)) [
  | inl few ↦ rw few (ap (λ m. 2 ^ m) (min_below r few) ∙ power_lem r)
  | inr many ↦ rw many (ap (λ m. 2 ^ m) (min_above r many))
]
  where
    min_below : (r : ℕ) → ltb r 8 ≡ true → min r 8 ≡ r
    min_below r h = ground (arith, h)

    min_above : (r : ℕ) → ltb r 8 ≡ false → min r 8 ≡ 8
    min_above r h = ground (arith, h)

backoff_lem : (r : ℕ) → backoff r ≡ wait broken r
backoff_lem r = ap (λ n. 10 + n) (capped r)

wait_bounds : (reason : Reason) (r : ℕ) → (10 ≤ wait reason r) × (wait reason r ≤ 266)
wait_bounds closed r = (omega arith, omega arith)
wait_bounds (refused closed_after ids) r = (omega arith, omega arith)
wait_bounds broken r =
    let most = pow-le-pow_right {n = 2} (omega arith) {i = min r 8} {j = 8} (omega arith) in
    let same = capped r in (omega arith, omega (arith, most, same))

failed_at_lem :
    (now after : ℕ) (reason : Reason)
    → failed_at (now + after) reason ≡ now + failed_at after reason
failed_at_lem now after broken = refl
failed_at_lem now after closed = refl
failed_at_lem now after (refused closed_after ids) = omega arith

failures_end_bounds :
    (now r : ℕ) (fs : List Failure)
    → (now + delays fs + 10 * length fs ≤ failures_end now r fs)
      × (failures_end now r fs ≤ now + delays fs + 266 * length fs)
failures_end_bounds now r [] = (omega arith, omega arith)
failures_end_bounds now r (f ∷ fs) =
    let (low, high) = wait_bounds f.reason r in
    let (least, most) = failures_end_bounds (retried_at now r f) (r + 1) fs in
    let begins = failed_at_lem now f.after f.reason in
    (omega (arith, low, least, begins), omega (arith, high, most, begins))

leb_refl : (n : ℕ) → leb n n ≡ true
leb_refl n = ground arith

≤→leb : (m n : ℕ) → m ≤ n → leb m n ≡ true
≤→leb m n h = ground arith

-- The subscriber while it waits.
abbrev status_after : Reason → ShortStatus
status_after broken = error
status_after other = connection_closed

abbrev waiting : ℕ → Reason → MqttSubscriber → MqttSubscriber
waiting now reason s = record s {
  short_status = status_after reason;
  expires_at = failed_at now reason + wait reason s.retries;
  waits = 1;
}

module _ (station_details : ℕ → StationDetails) where
  pub run-step :
      (now : ℕ) (i : Input) (rest : List (ℕ × Input)) (s s' : MqttSubscriber)
      → step station_details now i s ≡ some s'
      → run station_details ((now, i) ∷ rest) s ≡ run station_details rest s'
  unfolding run
  run-step now i rest s s' h = rw (run, h) refl

  pub expiry_lem :
      (t : ℕ) (s : MqttSubscriber)
      → s.queued ≡ 0
      → s.waits ≡ 1
      → s.expires_at ≤ t
      → step station_details t timer_expires s ≡ some (record s { queued = 1; waits = 0 })
  unfolding step
  expiry_lem t s q w e = rw (≤→leb s.expires_at t e, q, w) refl

  pub restart_lem :
      (t : ℕ) (s : MqttSubscriber)
      → s.is_stopped ≡ false
      → s.queued ≡ 1
      → s.expires_at ≤ t
      → step station_details t handler_runs s ≡ some (start t (record s { queued = 0 }))
  unfolding step check_retry_start_deadline start
  restart_lem t s h q e = rw (q, h, ≤→leb s.expires_at t e) refl

  error_lem :
      (now : ℕ) (s : MqttSubscriber)
      → s.is_stopped ≡ false
      → step station_details now errors s ≡ some (waiting now broken s)
  unfolding step handle_error
  error_lem now s h = rw (h, backoff_lem s.retries) refl

  close_lem :
      (now : ℕ) (s : MqttSubscriber)
      → s.is_stopped ≡ false
      → step station_details now closes s ≡ some (waiting now closed s)
  unfolding step handle_close
  close_lem now s h = rw h refl

  failure_lem :
      (now : ℕ) (reason : Reason) (rest : List (ℕ × Input)) (s : MqttSubscriber)
      → s.is_stopped ≡ false
      → run station_details (failure_inputs now reason ++ rest) s
        ≡ run station_details rest (waiting now reason s)
  unfolding step on_connack
  failure_lem now broken rest s h =
      run-step now errors rest s (waiting now broken s) (error_lem now s h)
  failure_lem now closed rest s h =
      run-step now closes rest s (waiting now closed s) (close_lem now s h)
  failure_lem now (refused closed_after ids) rest s h =
      let told = record s { short_status = failed_to_connect } in
      let t = now + closed_after in
      run-step now (connacks false ids) ((t, closes) ∷ rest) s told refl
      ∙ run-step t closes rest told (waiting t closed told) (close_lem t told h)

  abbrev retried : ℕ → Failure → MqttSubscriber → MqttSubscriber
  retried now f s =
      start (retried_at now s.retries f)
        (record (waiting (now + f.after) f.reason s) { waits = 0; queued = 0 })

  retry_lem :
      (now : ℕ) (f : Failure) (rest : List (ℕ × Input)) (s : MqttSubscriber)
      → s.is_stopped ≡ false
      → s.queued ≡ 0
      → run station_details
          (failure_inputs (now + f.after) f.reason
            ++ ((noticed_at now s.retries f, timer_expires)
                ∷ (retried_at now s.retries f, handler_runs)
                ∷ rest))
          s
        ≡ run station_details rest (retried now f s)
  retry_lem now f rest s h q =
      let due = noticed_at now s.retries f in
      let again = retried_at now s.retries f in
      let waits = waiting (now + f.after) f.reason s in
      let queued = record waits { queued = 1; waits = 0 } in
      failure_lem (now + f.after) f.reason ((due, timer_expires) ∷ (again, handler_runs) ∷ rest) s h
      ∙ run-step due timer_expires ((again, handler_runs) ∷ rest) waits queued
          (expiry_lem due waits q refl (omega arith))
      ∙ run-step again handler_runs rest queued (retried now f s)
          (restart_lem again queued h refl (omega arith))

  retries_lem :
      (now : ℕ) (fs : List Failure) (s : MqttSubscriber)
      → s.is_stopped ≡ false
      → s.queued ≡ 0
      → (s' : MqttSubscriber) × (run station_details (failures now s.retries fs) s ≡ some s')
        × (s'.is_stopped ≡ false)
        × (s'.retries ≡ s.retries + length fs)
        × (s'.connections ≡ retry_times now s.retries fs s.connections)
  unfolding start run
  retries_lem now [] s h q = (s, refl, h, omega arith, refl)
  retries_lem now (f ∷ fs) s h q =
      let t = retried_at now s.retries f in
      let (s', runs, live, count, times) = retries_lem t fs (retried now f s) refl refl in
      (
        s',
        retry_lem now f (failures t (s.retries + 1) fs) s h q ∙ runs,
        live,
        omega (arith, count),
        times,
      )

  -- A subscriber that is not stopped and has no handler queued, and each of whose connections fails, by an
  -- error, by a closing, or refused by the broker and then closed, connects again after each failure,
  -- whatever their number and however late its timer is noticed and its handler runs: the wait is
  -- of 10 s after a closing or a refusal, and after an error of 10 s and a power of two that doubles with
  -- each connection until 256 s; so that all the waits last from 10 to 266 s for each failure.
  pub failures_retried :
      (now : ℕ) (fs : List Failure) (s : MqttSubscriber)
      → s.is_stopped ≡ false
      → s.queued ≡ 0
      → (s' : MqttSubscriber) × (run station_details (failures now s.retries fs) s ≡ some s')
        × (s'.is_stopped ≡ false)
        × (s'.retries ≡ s.retries + length fs)
        × (s'.connections ≡ retry_times now s.retries fs s.connections)
        × (now + delays fs + 10 * length fs ≤ failures_end now s.retries fs)
        × (failures_end now s.retries fs ≤ now + delays fs + 266 * length fs)
  failures_retried now fs s h q =
      let (s', runs, live, count, times) = retries_lem now fs s h q in
      let (least, most) = failures_end_bounds now s.retries fs in
      (s', runs, live, count, times, least, most)
