-- ===== src/Liveobjects/BaraniAnemometer2026/Fields.antt =====
-- The fields of a payload packed one after the other, 8, 1, 12, 9, 8, 9, 8, 9, 9, 8, 9, 9, 7, 1 and 5 bits
-- long.
use meteodata_server.Base.{ℕ, ◌+◌, ◌*◌, ◌/◌, ◌%◌, ◌<◌, [], ◌∷◌, Bytes, ◌-◌, Bool, if◌then◌else◌}
use meteodata_server.Base.Int.{ℤ, pos, ltb_ℤ}
use meteodata_server.HexParser.Values.{hex_bytes}

-- The values of the fields.
pub record Fields : Type 0 where
  pub index : ℕ
  pub battery : ℕ
  pub avg : ℕ
  pub gust_3s : ℕ
  pub gust_1s : ℕ
  pub minimum : ℕ
  pub stdev : ℕ
  pub direction : ℕ
  pub gust_direction : ℕ
  pub direction_stdev : ℕ
  pub ccw : ℕ
  pub cw : ℕ
  pub time : ℕ
  pub alarm : ℕ
  pub debug : ℕ

pub record Fit (f : Fields) : Type 0 where
  pub index : f.index < 256
  pub battery : f.battery < 2
  pub avg : f.avg < 4096
  pub gust_3s : f.gust_3s < 512
  pub gust_1s : f.gust_1s < 256
  pub minimum : f.minimum < 512
  pub stdev : f.stdev < 256
  pub direction : f.direction < 512
  pub gust_direction : f.gust_direction < 512
  pub direction_stdev : f.direction_stdev < 256
  pub ccw : f.ccw < 512
  pub cw : f.cw < 512
  pub time : f.time < 128
  pub alarm : f.alarm < 2
  pub debug : f.debug < 32

abbrev bytes : Fields → Bytes
bytes f =
    f.index
    ∷ (f.battery * 128 + f.avg / 32)
    ∷ (f.avg % 32 * 8 + f.gust_3s / 64)
    ∷ (f.gust_3s % 64 * 4 + f.gust_1s / 64)
    ∷ (f.gust_1s % 64 * 4 + f.minimum / 128)
    ∷ (f.minimum % 128 * 2 + f.stdev / 128)
    ∷ (f.stdev % 128 * 2 + f.direction / 256)
    ∷ f.direction % 256
    ∷ f.gust_direction / 2
    ∷ (f.gust_direction % 2 * 128 + f.direction_stdev / 2)
    ∷ (f.direction_stdev % 2 * 128 + f.ccw / 4)
    ∷ (f.ccw % 4 * 64 + f.cw / 8)
    ∷ (f.cw % 8 * 32 + f.time / 4)
    ∷ (f.time % 4 * 64 + f.alarm * 32 + f.debug)
    ∷ []

abbrev pub packed : Fields → Bytes
packed f = hex_bytes (bytes f)

-- The voltage of an index of the format, in tenths of a volt: 3.3 V to 4.1 V in steps of 0.2 V. A known one
-- that is below it goes up to 0.1 V above it, or one that is above it goes down to 0.1 V below it.
abbrev pub battery_after : Bool → ℕ → ℤ → ℤ
battery_after rises index known =
    let voltage : ℕ = 33 + index % 5 * 2 in
    if rises
    then (if ltb_ℤ known (pos voltage) then pos (voltage + 1) else known)
    else (if ltb_ℤ (pos voltage) known then pos (voltage - 1) else known)
