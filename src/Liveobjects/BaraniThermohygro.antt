-- ===== src/Liveobjects/BaraniThermohygro.antt =====
-- The weather station MeteoHelix (src/barani/barani_thermohygro_message.cpp). Temperatures are in tenths of
-- degrees, the battery in steps of 0.05 V over 3 V, the humidity in fifths of a percent, the radiations in
-- steps of 2 W/m² and the rain in clicks. The pressure is kept in steps of 5 Pa over 50000 Pa, before it
-- is brought to the level of the sea with the temperature of the message; with none, it is not a number
-- either. A measure that is missing is none.
pub mod Fields
use meteodata_server.Base.{
  ℕ, ◌+◌, ◌*◌, ◌/◌, ◌%◌, Bool, true, false, not, [], ◌∷◌, Bytes, Option, none, some, leb, ◌==◌,
  ◌||◌, if◌then◌else◌, get_or,
}
use meteodata_server.Base.Int.{ℤ, pos, ◌+ℤ◌, ◌-ℤ◌, ltb_ℤ}
use meteodata_server.Liveobjects.{validate_input}
use meteodata_server.Liveobjects.BaraniRainGauge.{recent, raw_bytes}

pub record DataPoint : Type 0 where
  pub valid : Bool
  pub message_type : ℤ
  pub time : ℤ
  pub battery_voltage : Option ℕ
  pub temperature : Option ℤ
  pub min_temperature : Option ℤ
  pub max_temperature : Option ℤ
  pub humidity : Option ℕ
  pub pressure : Option ℕ
  pub radiation : Option ℕ
  pub max_radiation : Option ℕ
  pub rainfall_clicks : ℕ
  pub rainfall : Option ℤ
  pub min_time_between_clicks : ℕ

-- What the clock and the cache answer, the latter with its date.
pub record Lookup : Type 0 where
  pub now : ℤ
  pub cached_clicks : Option (ℤ × ℤ)

abbrev pub byte : Bytes → ℕ → ℕ
byte raw i = get_or raw i 0

-- Each mask and shift of a byte is a remainder and a quotient.
abbrev pub type_field : Bytes → ℕ
type_field raw = byte raw 0 / 64 % 4

abbrev pub battery_field : Bytes → ℕ
battery_field raw = byte raw 0 / 2 % 32

abbrev pub temperature_field : Bytes → ℕ
temperature_field raw = byte raw 0 % 2 * 1024 + byte raw 1 * 4 + byte raw 2 / 64 % 4

abbrev pub humidity_field : Bytes → ℕ
humidity_field raw = byte raw 3 % 4 * 128 + byte raw 4 / 2 % 128

abbrev pub pressure_field : Bytes → ℕ
pressure_field raw = byte raw 4 % 2 * 8192 + byte raw 5 * 32 + byte raw 6 / 8 % 32

abbrev pub radiation_field : Bytes → ℕ
radiation_field raw = byte raw 6 % 8 * 128 + byte raw 7 / 2 % 128

abbrev pub max_radiation_field : Bytes → ℕ
max_radiation_field raw = byte raw 7 % 2 * 256 + byte raw 8

abbrev pub unless {ℓ} : {A : Type ℓ} → Bool → A → Option A
unless missing a = if missing then none else some a

abbrev pub rain_since : ℕ → Option ℤ → Option ℤ → Option ℤ
rain_since clicks none before = before
rain_since clicks (some prev) before =
    some (if ltb_ℤ (pos clicks) prev then pos 256 -ℤ prev +ℤ pos clicks else pos clicks -ℤ prev)

-- The message whose type is known to be 1, from its bytes.
unfoldable pub decode : Lookup → Bytes → ℤ → DataPoint → DataPoint
decode db raw datetime obs = record {
  valid = true;
  message_type = pos 1;
  time = datetime;
  battery_voltage = unless (battery_field raw == 31) (battery_field raw);
  temperature = unless (temperature_field raw == 2047) (pos (temperature_field raw) -ℤ pos 1000);
  min_temperature =
      unless (byte raw 2 % 64 == 63)
        (pos (temperature_field raw) -ℤ pos (byte raw 2 % 64) -ℤ pos 1000);
  max_temperature =
      unless (byte raw 3 / 4 % 64 == 63)
        (pos (temperature_field raw + byte raw 3 / 4 % 64) -ℤ pos 1000);
  humidity = unless (humidity_field raw == 127) (humidity_field raw);
  pressure =
      unless (pressure_field raw == 16383 || temperature_field raw == 2047) (pressure_field raw);
  radiation = unless (radiation_field raw == 1023) (radiation_field raw);
  max_radiation =
      unless (max_radiation_field raw == 511) (radiation_field raw + max_radiation_field raw);
  rainfall_clicks = byte raw 9;
  rainfall = rain_since (byte raw 9) (recent db.now db.cached_clicks) obs.rainfall;
  min_time_between_clicks = byte raw 10;
}

-- ingest; of eleven bytes, the first ten are read and the last one stays 0.
unfoldable pub ingest : Lookup → Bytes → ℤ → DataPoint → DataPoint
ingest db payload datetime obs =
    let raw = raw_bytes 10 payload in
    if not (validate_input payload (22 ∷ []))
    then record obs { valid = false }
    else if type_field raw == 1
    then decode db raw datetime obs
    else record obs { valid = false; time = datetime; message_type = pos (type_field raw) }

-- cacheValues: what is written, with its date.
unfoldable pub cache_values : DataPoint → Option (ℤ × ℕ)
cache_values obs = if obs.valid then some (obs.time, obs.rainfall_clicks) else none
