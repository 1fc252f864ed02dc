-- ===== src/Liveobjects/BaraniAnemometer2026.antt =====
-- The anemometer MeteoWind of 2026 (src/barani/barani_anemometer_2026_message.cpp).
pub mod Fields
use meteodata_server.Base.{
  ℕ, ◌+◌, ◌*◌, ◌/◌, ◌%◌, Bool, true, false, not, [], ◌∷◌, Bytes, Option, none, some, ◌==◌,
  if◌then◌else◌,
}
use meteodata_server.Base.Int.{ℤ, pos, negsuc}
use meteodata_server.Liveobjects.{validate_input}
use meteodata_server.Liveobjects.BaraniRainGauge.{raw_bytes}
use meteodata_server.Liveobjects.Wind.{
  WindSpeed, byte, speed_unless, speed_or_calm, direction_of, known_battery_after, voltage_of,
  wind_time,
}

-- The voltage is in tenths of a volt.
pub record DataPoint : Type 0 where
  pub valid : Bool
  pub index : ℕ
  pub time : ℤ
  pub battery_voltage : ℤ
  pub wind_avg_10min_speed : WindSpeed
  pub wind_3s_gust_speed : WindSpeed
  pub wind_1s_gust_speed : WindSpeed
  pub wind_3s_min_speed : WindSpeed
  pub wind_speed_stdev : WindSpeed
  pub wind_avg_10min_direction : ℤ
  pub wind_1s_gust_direction : ℤ
  pub wind_direction_stdev : ℤ
  pub dir_ccw_min : ℤ
  pub dir_cw_max : ℤ
  pub max_wind_datetime : ℤ
  pub alarm_sent : Bool
  pub debug_flags : ℕ

-- The offset of the directions (0 if there is none) and the battery known (33) in the cache.
pub record Lookup : Type 0 where
  pub direction_offset : ℤ
  pub known_battery : ℤ

abbrev pub avg_field : Bytes → ℕ
avg_field raw = byte raw 1 % 128 * 32 + byte raw 2 / 8 % 32

abbrev pub gust_3s_field : Bytes → ℕ
gust_3s_field raw = byte raw 2 % 8 * 64 + byte raw 3 / 4 % 64

abbrev pub gust_1s_field : Bytes → ℕ
gust_1s_field raw = byte raw 3 % 4 * 64 + byte raw 4 / 4 % 64

abbrev pub min_3s_field : Bytes → ℕ
min_3s_field raw = byte raw 4 % 4 * 128 + byte raw 5 / 2 % 128

abbrev pub stdev_field : Bytes → ℕ
stdev_field raw = byte raw 5 % 2 * 128 + byte raw 6 / 2 % 128

abbrev pub direction_field : Bytes → ℕ
direction_field raw = byte raw 6 % 2 * 256 + byte raw 7

abbrev pub gust_direction_field : Bytes → ℕ
gust_direction_field raw = byte raw 8 * 2 + byte raw 9 / 128 % 2

abbrev pub direction_stdev_field : Bytes → ℕ
direction_stdev_field raw = byte raw 9 % 128 * 2 + byte raw 10 / 128 % 2

abbrev pub ccw_field : Bytes → ℕ
ccw_field raw = byte raw 10 % 128 * 4 + byte raw 11 / 64 % 4

abbrev pub cw_field : Bytes → ℕ
cw_field raw = byte raw 11 % 64 * 8 + byte raw 12 / 32 % 8

abbrev pub time_field : Bytes → ℕ
time_field raw = byte raw 12 % 32 * 4 + byte raw 13 / 64 % 4

abbrev pub or_minus_one : Bool → ℕ → ℤ
or_minus_one absent n = if absent then negsuc 0 else pos n

-- The message, with the battery that is written in the cache. The object is new for each message, and its
-- voltage, which the code tests, is not initialised: `stray` says whether it happens to be other than 0.
unfoldable pub decode : Lookup → Bool → Bytes → ℤ → DataPoint × ℤ
decode db stray raw datetime =
    let known = known_battery_after stray (byte raw 0) db.known_battery in
    (
      record {
        valid = true;
        index = byte raw 0;
        time = datetime;
        battery_voltage = voltage_of known;
        wind_avg_10min_speed =
            speed_or_calm (avg_field raw == 4095) (avg_field raw) (avg_field raw);
        wind_3s_gust_speed =
            speed_unless (gust_3s_field raw == 511) (avg_field raw + gust_3s_field raw * 5);
        wind_1s_gust_speed =
            speed_unless (gust_1s_field raw == 255)
              (avg_field raw + gust_3s_field raw * 5 + gust_1s_field raw * 5);
        wind_3s_min_speed =
            speed_or_calm (min_3s_field raw == 511) (min_3s_field raw) (min_3s_field raw * 5);
        wind_speed_stdev =
            speed_or_calm (stdev_field raw == 255) (stdev_field raw) (stdev_field raw * 50);
        wind_avg_10min_direction =
            direction_of (direction_field raw == 511) (direction_field raw) db.direction_offset;
        wind_1s_gust_direction =
            direction_of (gust_direction_field raw == 511) (gust_direction_field raw)
              db.direction_offset;
        wind_direction_stdev =
            or_minus_one (direction_stdev_field raw == 255) (direction_stdev_field raw);
        dir_ccw_min = or_minus_one (ccw_field raw == 511) (ccw_field raw);
        dir_cw_max = or_minus_one (ccw_field raw == 511) (cw_field raw);
        max_wind_datetime = wind_time datetime (time_field raw);
        alarm_sent = not (byte raw 13 / 32 % 2 == 0);
        debug_flags = byte raw 11 % 64;
      },
      known,
    )

-- ingest; an invalid payload writes nothing in the cache.
unfoldable pub ingest : Lookup → Bool → Bytes → ℤ → DataPoint → DataPoint × Option ℤ
ingest db stray payload datetime obs =
    let (obs', known) = decode db stray (raw_bytes 14 payload) datetime in
    if not (validate_input payload (28 ∷ []))
    then (record obs { valid = false }, none)
    else (obs', some known)
