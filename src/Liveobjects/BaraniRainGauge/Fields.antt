-- ===== src/Liveobjects/BaraniRainGauge/Fields.antt =====
-- The fields of a payload packed one after the other, 8, 5, 12, 8, 1, 1 and 12 bits long and a bit left.
use meteodata_server.Base.{
  ℕ, zero, suc, ◌+◌, ◌*◌, ◌/◌, ◌%◌, ◌<◌, ◌≡◌, ◌∙◌, ◌↔◌, refl, ap, true, not, arith, [], ◌∷◌, ◌++◌,
  Bytes, IsBytes, none, some, ◌==◌, if◌then◌else◌, get_or,
}
use meteodata_server.Base.Int.{ℤ}
use meteodata_server.HexParser.{parse}
use meteodata_server.HexParser.Values.{hex_digit, hex_bytes, parse-digits}
use meteodata_server.Liveobjects.{validate_input, all_hex}
use meteodata_server.Liveobjects.Thpllora.Fields.{is_hex-hex_digit}
use meteodata_server.Liveobjects.BaraniRainGauge.{
  DataPoint, Lookup, raw_bytes, ingest, battery_field, rain_field, min_time_field, correction_field,
}

pub parse-hex_bytes :
    (b : ℕ) (rest : Bytes)
    → b < 256
    → parse 16 16 2 (hex_digit (b / 16) ∷ hex_digit (b % 16) ∷ rest) ≡ (b, rest)
parse-hex_bytes b rest h =
    parse-digits 16 (b / 16 ∷ b % 16 ∷ []) rest (ground (arith, h))
    ∙ ap (λ v. (v, rest)) (omega arith)

abbrev pub zeros : ℕ → Bytes
zeros zero = []
zeros (suc n) = 0 ∷ zeros n

parse-end : parse 16 16 2 [] ≡ (0, [])
unfolding meteodata_server.HexParser.parse_from
parse-end = refl

raw_bytes-end : (n : ℕ) → raw_bytes n [] ≡ zeros n
unfolding raw_bytes
raw_bytes-end zero = refl
raw_bytes-end (suc n) = rw parse-end (ap (◌∷◌ 0) (raw_bytes-end n))

abbrev pub count : Bytes → ℕ → ℕ
count [] n = n
count (b ∷ bs) n = suc (count bs n)

pub raw_bytes-hex_bytes :
    (bs : Bytes) (n : ℕ) → IsBytes bs → raw_bytes (count bs n) (hex_bytes bs) ≡ bs ++ zeros n
unfolding raw_bytes
raw_bytes-hex_bytes [] n h = raw_bytes-end n
raw_bytes-hex_bytes (b ∷ bs) n h =
    rw (parse-hex_bytes b (hex_bytes bs) h.0) (ap (◌∷◌ b) (raw_bytes-hex_bytes bs n h.1))

pub all_hex-hex_bytes : (bs : Bytes) → IsBytes bs → all_hex (hex_bytes bs) ≡ true
all_hex-hex_bytes [] h = refl
all_hex-hex_bytes (b ∷ bs) h =
    rw
      (
        is_hex-hex_digit (b / 16) (omega (arith, h.0)),
        is_hex-hex_digit (b % 16) (omega arith),
        all_hex-hex_bytes bs h.1,
      )
      refl

-- The six bytes of the fields.
abbrev pub packed : ℕ → ℕ → ℕ → ℕ → ℕ → ℕ → ℕ → Bytes
packed index battery rain time temp heater correction =
    index
    ∷ (battery * 8 + rain / 512)
    ∷ rain / 2 % 256
    ∷ (rain % 2 * 128 + time / 2)
    ∷ (time % 2 * 128 + temp * 64 + heater * 32 + correction / 128)
    ∷ correction % 128 * 2
    ∷ []

rain_exact : (n : ℕ) → (n / 512 * 2048 + n % 512 ≡ n) ↔ (n < 512)
rain_exact n = ground arith

correction_exact : (n : ℕ) → (n / 128 * 32 + n % 128 ≡ n) ↔ (n < 128)
correction_exact n = ground arith

module _ (index battery rain time temp heater correction : ℕ) where
  -- Each field fits its bits.
  abbrev pub Fit : Type 0
  Fit =
      (index < 256)
      × (battery < 32)
      × (rain < 4096)
      × (time < 256)
      × (temp < 2)
      × (heater < 2)
      × (correction < 4096)

  abbrev bytes : Bytes
  bytes = packed index battery rain time temp heater correction

  bytes-IsBytes : Fit → IsBytes bytes
  bytes-IsBytes (i, b, r, t, x, y, k) =
      (omega arith, (omega arith, (omega arith, (omega arith, (omega arith, (omega arith, tt))))))

  payload_valid : Fit → validate_input (hex_bytes bytes) (12 ∷ []) ≡ true
  unfolding validate_input
  payload_valid f = rw (all_hex-hex_bytes bytes (bytes-IsBytes f)) refl

  battery_lem : Fit → battery_field (bytes ++ zeros 4) ≡ battery
  battery_lem (i, b, r, t, x, y, k) = omega arith

  min_time_lem : Fit → min_time_field (bytes ++ zeros 4) ≡ time
  min_time_lem (i, b, r, t, x, y, k) = omega arith

  temp_lem : Fit → get_or (bytes ++ zeros 4) 4 0 / 64 % 2 ≡ temp
  temp_lem (i, b, r, t, x, y, k) = omega arith

  heater_lem : Fit → get_or (bytes ++ zeros 4) 4 0 / 32 % 2 ≡ heater
  heater_lem (i, b, r, t, x, y, k) = omega arith

  rain_lem : Fit → rain_field (bytes ++ zeros 4) ≡ rain / 512 * 2048 + rain % 512
  rain_lem (i, b, r, t, x, y, k) = omega arith

  correction_lem :
      Fit → correction_field (bytes ++ zeros 4) ≡ correction / 128 * 32 + correction % 128
  correction_lem (i, b, r, t, x, y, k) = omega arith

  -- A payload of the fields, packed and written in hexadecimal, is valid; its index, its battery, its time
  -- between clicks and its two flags are decoded as they are; its rain and its correction are decoded as they
  -- are exactly when they are below 512 and 128, the bits above being moved too far or not far
  -- enough.
  pub ingest-packed :
      (db : Lookup) (datetime : ℤ) (obs : DataPoint)
      → Fit
      → let obs' =
          ingest db
            (hex_bytes (packed index battery rain time temp heater correction))
            datetime
            obs in
        (obs'.valid ≡ true)
        × (obs'.time ≡ datetime)
        × (obs'.index ≡ index)
        × (obs'.battery_voltage ≡ (if battery == 31 then none else some battery))
        × (obs'.min_time_between_clicks ≡ time)
        × (obs'.temp_over_2c ≡ not (temp == 0))
        × (obs'.heater_switched_on ≡ not (heater == 0))
        × ((obs'.rainfall_clicks ≡ rain) ↔ (rain < 512))
        × ((obs'.correction ≡ correction) ↔ (correction < 128))
  unfolding ingest
  ingest-packed db datetime obs f =
      rw (payload_valid f, raw_bytes-hex_bytes bytes 4 (bytes-IsBytes f))
        (
          refl,
          refl,
          refl,
          ap (λ b. if b == 31 then none else some b) (battery_lem f),
          min_time_lem f,
          ap (λ b. not (b == 0)) (temp_lem f),
          ap (λ b. not (b == 0)) (heater_lem f),
          rw (rain_lem f) (rain_exact rain),
          rw (correction_lem f) (correction_exact correction),
        )
