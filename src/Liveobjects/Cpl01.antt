-- ===== src/Liveobjects/Cpl01.antt =====
-- The rain gauge CPL01 (src/dragino/cpl01_pluviometer_message.cpp). The rain is in clicks.
use meteodata_server.Base.{
  ℕ, ◌+◌, ◌-◌, ◌*◌, ◌/◌, ◌%◌, ◌^◌, ◌<◌, ◌≡◌, ◌⊎◌, arith, Bool, true, false, not, [], ◌∷◌, Bytes,
  Option, none, some, ltb, ◌==◌, if◌then◌else◌,
}
use meteodata_server.Base.Int.{ℤ, pos, ◌+ℤ◌, ltb_ℤ}
use meteodata_server.HexParser.{parse, ignore}
use meteodata_server.Liveobjects.{validate_input}

pub record DataPoint : Type 0 where
  pub valid : Bool
  pub time : ℤ
  pub flag : ℕ
  pub alarm : Bool
  pub currently_open : Bool
  pub total_pulses : ℕ
  pub rainfall : Option ℤ

-- What the clock and the cache answer, the latter with its date; and the value of the date where the cache
-- has no entry, which leaves it not initialised.
pub record Lookup : Type 0 where
  pub now : ℤ
  pub cached_clicks : Option (ℤ × ℕ)
  pub stray_update : ℤ

-- The clicks since the ones cached, `(0xFFFFFFu - previousClicks) + _obs.totalPulses` when the counter
-- has decreased.
unfoldable pub clicks_since : ℕ → ℕ → ℕ
clicks_since clicks previous =
    if ltb clicks previous
    then (2 ^ 24 - 1 + 2 ^ 32 - previous % 2 ^ 32 + clicks) % 2 ^ 32
    else clicks - previous

abbrev last_update : Lookup → ℤ
last_update db = elim db.cached_clicks [ none ↦ db.stray_update | some (date, clicks) ↦ date ]

abbrev rain : Lookup → ℕ → Option ℤ → Option ℤ
rain db clicks before = elim db.cached_clicks [
  | none ↦ before
  | some (date, previous) ↦
      if ltb_ℤ db.now (date +ℤ pos 86400) then some (pos (clicks_since clicks previous)) else before
]

-- ingest
unfoldable pub ingest : Lookup → Bytes → ℤ → DataPoint → DataPoint
ingest db payload datetime obs =
    let (status, is) = parse 8 16 2 payload in
    let (pulses, is) = parse 16 16 6 is in
    let (timestamp, is) = parse 64 16 8 (ignore 6 is) in
    if not (validate_input payload (22 ∷ [])) then record obs { valid = false } else record {
      valid = true;
      time = if ltb_ℤ (last_update db) (pos timestamp) then pos timestamp else datetime;
      flag = status / 4 * 4;
      alarm = not (status / 2 % 2 == 0);
      currently_open = not (status % 2 == 0);
      total_pulses = pulses;
      rainfall = rain db pulses obs.rainfall;
    }

-- cacheValues: what is written, with its date.
unfoldable pub cache_values : DataPoint → Option (ℤ × ℕ)
cache_values obs = if obs.valid then some (obs.time, obs.total_pulses) else none

-- Between two messages whose counter, kept on 16 bits, goes from `n` to `n + f`, the clicks are exact until
-- the 16 bits wrap around; then 2^24 - 1 - 2^16 too many are counted.
pub clicks_since_lem :
    (n f : ℕ)
    → f < 65536
    → (n % 65536 + f < 65536) × (clicks_since ((n + f) % 65536) (n % 65536) ≡ f)
      ⊎ (65536 < n % 65536 + f + 1) × (clicks_since ((n + f) % 65536) (n % 65536) ≡ f + 16711679)
unfolding clicks_since
clicks_since_lem n f h = ground arith
