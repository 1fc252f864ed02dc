-- ===== src/Liveobjects/BaraniRainGauge.antt =====
-- The rain gauge MeteoRain (src/barani/barani_rain_gauge_message.cpp). The battery is kept in steps of
-- 0.05 V over 3 V, and the rain in hundredths of a click.
pub mod Fields
pub mod Rain
use meteodata_server.Base.{
  ℕ, zero, suc, ◌+◌, ◌*◌, ◌/◌, ◌%◌, Bool, true, false, not, List, [], ◌∷◌, Bytes, Option, none,
  some, ◌==◌, if◌then◌else◌, get_or,
}
use meteodata_server.Base.Int.{ℤ, pos, ◌+ℤ◌, ◌-ℤ◌, ◌*ℤ◌, ltb_ℤ}
use meteodata_server.HexParser.{parse}
use meteodata_server.Liveobjects.{validate_input}

-- DataPoint; a rainfall that has not been computed is indeterminate, none.
pub record DataPoint : Type 0 where
  pub valid : Bool
  pub time : ℤ
  pub index : ℕ
  pub battery_voltage : Option ℕ
  pub rainfall_clicks : ℕ
  pub rainfall : Option ℤ
  pub min_time_between_clicks : ℕ
  pub temp_over_2c : Bool
  pub heater_switched_on : Bool
  pub correction : ℕ

-- What the clock and the two entries of the cache answer, the latter with their dates.
pub record Lookup : Type 0 where
  pub now : ℤ
  pub cached_clicks : Option (ℤ × ℤ)
  pub cached_correction_clicks : Option (ℤ × ℤ)

-- The value of an entry of the cache that is less than a day old.
unfoldable pub recent : ℤ → Option (ℤ × ℤ) → Option ℤ
recent now none = none
recent now (some (last_update, value)) =
    if ltb_ℤ now (last_update +ℤ pos 86400) then some value else none

-- `for (int byte=0 ; byte<10 ; byte++) is >> parse(raw[byte], 2, 16);`
unfoldable pub raw_bytes : ℕ → Bytes → Bytes
raw_bytes zero is = []
raw_bytes (suc n) is = let (byte, rest) = parse 16 16 2 is in byte ∷ raw_bytes n rest

-- The fields of the bytes; each mask and shift of a byte is a remainder and a quotient.
abbrev pub battery_field : Bytes → ℕ
battery_field raw = get_or raw 1 0 / 8 % 32

abbrev pub rain_field : Bytes → ℕ
rain_field raw = (get_or raw 1 0 % 8 * 2048 + get_or raw 2 0 * 2 + get_or raw 3 0 / 128 % 2) % 65536

abbrev pub min_time_field : Bytes → ℕ
min_time_field raw = get_or raw 3 0 % 128 * 2 + get_or raw 4 0 / 128 % 2

abbrev pub correction_field : Bytes → ℕ
correction_field raw = get_or raw 4 0 % 32 * 32 + get_or raw 5 0 / 2 % 128

-- The clicks since a counter: the difference if the counter has increased, otherwise that of a counter
-- that has wrapped.
unfoldable pub clicks_since : ℕ → ℤ → ℤ
clicks_since clicks previous =
    if ltb_ℤ previous (pos clicks)
    then pos clicks -ℤ previous
    else pos 4096 -ℤ previous +ℤ pos clicks

abbrev pub add_correction : ℕ → Option ℤ → Option ℤ → Option ℤ
add_correction clicks none rainfall = rainfall
add_correction clicks (some previous) none = none
add_correction clicks (some previous) (some rainfall) =
    some (rainfall +ℤ clicks_since clicks previous)

abbrev pub count_rain : ℕ → Option ℤ → Option ℤ → Option ℤ
count_rain clicks none rainfall = rainfall
count_rain clicks (some previous) rainfall = some (clicks_since clicks previous *ℤ pos 100)

-- ingest
unfoldable pub ingest : Lookup → Bytes → ℤ → DataPoint → DataPoint
ingest db payload datetime obs =
    let raw = raw_bytes 10 payload in
    let rain = count_rain (rain_field raw) (recent db.now db.cached_clicks) obs.rainfall in
    if not (validate_input payload (12 ∷ [])) then record obs { valid = false } else record {
      valid = true;
      time = datetime;
      index = get_or raw 0 0;
      battery_voltage = if battery_field raw == 31 then none else some (battery_field raw);
      rainfall_clicks = rain_field raw;
      rainfall =
          add_correction (correction_field raw) (recent db.now db.cached_correction_clicks) rain;
      min_time_between_clicks = min_time_field raw;
      temp_over_2c = not (get_or raw 4 0 / 64 % 2 == 0);
      heater_switched_on = not (get_or raw 4 0 / 32 % 2 == 0);
      correction = correction_field raw;
    }

-- cacheValues: what is written under each of the two keys.
unfoldable pub cache_values : DataPoint → Option (ℤ × ℕ × ℕ)
cache_values obs = if obs.valid then some (obs.time, obs.rainfall_clicks, obs.correction) else none
