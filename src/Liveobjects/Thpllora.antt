-- ===== src/Liveobjects/Thpllora.antt =====
-- The weather station with a rain gauge (src/dragino/thpllora_message.cpp). Every measure is kept as
-- the integer it is computed from: tenths of a degree and of a percent, clicks of the rain gauge, and
-- pulses of the anemometer with the period they were counted over.
pub mod Fields
pub mod Rain
use meteodata_server.Base.{
  ℕ, suc, ◌+◌, ◌-◌, ◌%◌, ◌^◌, Bool, true, false, not, ◌&&◌, [], ◌∷◌, Bytes, Option, none, some, leb,
  ltb, ◌==◌, if◌then◌else◌, length,
}
use meteodata_server.Base.Int.{ℤ, pos, negsuc, ◌+ℤ◌, ltb_ℤ}
use meteodata_server.HexParser.{parse}
use meteodata_server.Liveobjects.{validate_input}

-- DataPoint; a measure that is not a number is none.
pub record DataPoint : Type 0 where
  pub valid : Bool
  pub time : ℤ
  pub battery : ℕ
  pub rainrate : Option ℕ
  pub total_pulses : ℕ
  pub temperature : Option ℤ
  pub humidity : Option ℕ
  pub wind_speed : Option (ℕ × ℕ)
  pub gust_speed : Option ℕ
  pub wind_dir : Option ℕ
  pub rainfall : Option ℕ

-- What the database and the clock answer: the polling period of the station, and the last counter
-- of the rain gauge with its date.
pub record Lookup : Type 0 where
  pub now : ℤ
  pub polling_period : Option ℕ
  pub cached_int : Option (ℤ × ℤ)

-- The temperature and the humidity, in tenths.
unfoldable pub decode_temperature : ℕ → ℕ → Option ℤ
decode_temperature temp hum =
    if temp == 0xFFFF && hum == 0xFFFF
    then none
    else if ltb temp 0x8000
    then some (pos temp)
    else some (negsuc (65535 - temp))

abbrev pub decode_humidity : ℕ → ℕ → Option ℕ
decode_humidity temp hum = if temp == 0xFFFF && hum == 0xFFFF then none else some hum

-- The clicks of the rain gauge since the last counter: the difference of the two when the counter has
-- not decreased, otherwise an unsigned sum of 32 bits.
unfoldable pub rain_clicks : ℕ → ℤ → ℕ
rain_clicks total_pulses (negsuc n) = total_pulses + suc n
rain_clicks total_pulses (pos previous_clicks) =
    if leb previous_clicks total_pulses
    then total_pulses - previous_clicks
    else (0xFFFFFFFF - previous_clicks + total_pulses) % 2 ^ 32

-- The counter that the rain is counted from: the one that is forced, or the one cached less than a
-- day ago.
unfoldable pub previous_clicks : Lookup → Option ℤ → Option ℤ
previous_clicks db (some forced) = some forced
previous_clicks db none = elim db.cached_int [
  | none ↦ none
  | some (last_update, clicks) ↦
      if ltb_ℤ db.now (last_update +ℤ pos 86400) then some clicks else none
]

abbrev pub polling_period_or : Lookup → ℕ
polling_period_or db = elim db.polling_period [ some p ↦ p | none ↦ 10 ]

-- ThplloraMessage::ingest
unfoldable pub ingest : Lookup → Option ℤ → Bytes → ℤ → DataPoint → DataPoint
ingest db forced payload datetime obs =
    let (battery, s1) = parse 16 16 4 payload in
    let (rainrate, s2) = parse 16 16 4 s1 in
    let (total_pulses, s3) = parse 16 16 8 s2 in
    let (temp, s4) = parse 16 16 4 s3 in
    let (hum, s5) = parse 16 16 4 s4 in
    let (wind_pulses, s6) = parse 16 16 4 s5 in
    let (gust_pulses, s7) = parse 8 16 2 s6 in
    let (wind_dir, _) = parse 16 16 4 s7 in
    let has_wind = leb 32 (length payload) in
    if not (validate_input payload (24 ∷ 32 ∷ 34 ∷ []))
    then record obs { valid = false }
    else record {
      valid = true;
      time = datetime;
      battery = battery;
      rainrate = if rainrate == 0x7FFF then none else some rainrate;
      total_pulses = total_pulses;
      temperature = decode_temperature temp hum;
      humidity = decode_humidity temp hum;
      wind_speed = if has_wind then some (wind_pulses, polling_period_or db) else obs.wind_speed;
      gust_speed = if has_wind then some gust_pulses else obs.gust_speed;
      wind_dir =
          if length payload == 34 && not (wind_dir == 0xFFFF) then some wind_dir else obs.wind_dir;
      rainfall = elim (previous_clicks db forced) [
        | none ↦ obs.rainfall
        | some previous ↦ some (rain_clicks total_pulses previous)
      ];
    }

-- cacheValues: what is written in the cache, with its date.
unfoldable pub cache_values : Option ℤ → DataPoint → Option (ℤ × ℤ)
cache_values forced obs =
    if obs.valid
    then elim forced [ some _ ↦ none | none ↦ some (obs.time, pos obs.total_pulses) ]
    else none
