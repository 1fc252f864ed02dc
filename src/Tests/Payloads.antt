-- ===== src/Tests/Payloads.antt =====
-- The payloads of the LoRa sensors.
use meteodata_server.Base.{
  ◌↔◌, ◌+◌, ◌%◌, ◌^◌, ◌<◌, ◌≤◌, ◌≡◌, ◌⊎◌, refl, true, false, none, some, [], ◌∷◌, arith,
}
use meteodata_server.Base.Int.{pos, negsuc, ◌-ℤ◌}
use meteodata_server.Liveobjects.BaraniRainGauge as Barani
use meteodata_server.Liveobjects.BaraniRainGauge.Fields.{packed, ingest-packed}
use meteodata_server.HexParser.Values.{hex_bytes}
use meteodata_server.Liveobjects.Thpllora.{DataPoint, Lookup, rain_clicks, ingest}
use meteodata_server.Liveobjects.Thpllora.Rain.{rain_clicks_lem}
use meteodata_server.Liveobjects.Thpllora.Fields.{payload, ingest-payload}

-- The counter wraps from 65530 to 4.
rain_clicks_lem_example :
    (65530 + 10 < 65536) × (rain_clicks 4 (pos 65530) ≡ 10)
    ⊎ (65536 ≤ 65530 + 10) × (rain_clicks 4 (pos 65530) ≡ 10 + 4294901759)
rain_clicks_lem_example = rain_clicks_lem 65530 10 (omega arith)

abbrev empty_point : DataPoint
empty_point = record {
  valid = false;
  time = pos 0;
  battery = 0;
  rainrate = none;
  total_pulses = 0;
  temperature = none;
  humidity = none;
  wind_speed = none;
  gust_speed = none;
  wind_dir = none;
  rainfall = none;
}

abbrev lookup : Lookup
lookup = record { now = pos 1641643320; polling_period = some 10; cached_int = none }

ingest-payload_example :
    let obs' =
      ingest lookup none
        (payload
          (0 ∷ 12 ∷ 14 ∷ 4 ∷ [])
          (0 ∷ 0 ∷ 0 ∷ 0 ∷ [])
          (0 ∷ 0 ∷ 0 ∷ 1 ∷ 0 ∷ 0 ∷ 0 ∷ 2 ∷ [])
          (15 ∷ 15 ∷ 15 ∷ 6 ∷ [])
          (0 ∷ 3 ∷ 2 ∷ 0 ∷ []))
        (pos 1641643300)
        empty_point in
    (obs'.valid ≡ true)
    × (obs'.time ≡ pos 1641643300)
    × (obs'.battery ≡ 3300 % 2 ^ 16)
    × (obs'.total_pulses ≡ 65538 % 2 ^ 16)
    × (obs'.rainrate ≡ some 0)
    × (obs'.temperature ≡ some (negsuc 9))
    × (obs'.humidity ≡ some 800)
    × (obs'.wind_speed ≡ none)
    × (obs'.gust_speed ≡ none)
    × (obs'.wind_dir ≡ none)
unfolding ◌-ℤ◌
ingest-payload_example =
    ingest-payload (0 ∷ 12 ∷ 14 ∷ 4 ∷ []) (0 ∷ 0 ∷ 0 ∷ 0 ∷ []) (0 ∷ 0 ∷ 0 ∷ 1 ∷ 0 ∷ 0 ∷ 0 ∷ 2 ∷ [])
      (15 ∷ 15 ∷ 15 ∷ 6 ∷ []) (0 ∷ 3 ∷ 2 ∷ 0 ∷ []) (ground arith, refl) (ground arith, refl)
      (ground arith, refl) (ground arith, refl) (ground arith, refl) lookup none (pos 1641643300)
      empty_point

abbrev empty_rain : Barani.DataPoint
empty_rain = record {
  valid = false;
  time = pos 0;
  index = 0;
  battery_voltage = none;
  rainfall_clicks = 0;
  rainfall = none;
  min_time_between_clicks = 0;
  temp_over_2c = false;
  heater_switched_on = false;
  correction = 0;
}

abbrev no_cache : Barani.Lookup
no_cache = record { now = pos 1641643320; cached_clicks = none; cached_correction_clicks = none }

ingest-packed_example :
    let obs' =
      Barani.ingest no_cache
        (hex_bytes (packed 1 20 1000 130 1 0 300))
        (pos 1641643300)
        empty_rain in
    (obs'.valid ≡ true)
    × (obs'.time ≡ pos 1641643300)
    × (obs'.index ≡ 1)
    × (obs'.battery_voltage ≡ some 20)
    × (obs'.min_time_between_clicks ≡ 130)
    × (obs'.temp_over_2c ≡ true)
    × (obs'.heater_switched_on ≡ false)
    × ((obs'.rainfall_clicks ≡ 1000) ↔ (1000 < 512))
    × ((obs'.correction ≡ 300) ↔ (300 < 128))
ingest-packed_example =
    ingest-packed 1 20 1000 130 1 0 300 no_cache (pos 1641643300) empty_rain (ground arith)
