-- ===== src/Tests/Synop.antt =====
-- Messages in the format of the SYNOP decoder.
use Prim.Native.Char.{code}
use Prim.Native.String.{String}
use meteodata_server.Base.{
  ◌≡◌, ◌⊎◌, ◌↔◌, All, map, ◌++◌, refl, Bool, true, false, List, [], ◌∷◌, Option, none, some, inl,
  inr, arith,
}
use meteodata_server.Base.Int.{ℤ, pos}
use meteodata_server.Synop.{Text, Outcome, ended, thrown, undefined}
use meteodata_server.Synop.Message.{SynopMessage, Radiations, meters_per_second, not_available}
use meteodata_server.Synop.Digits.{digit}
use meteodata_server.Synop.Decoder.{
  words_from, trim_last, parse, mark, parse_groups, parse_section_4,
}
use meteodata_server.Synop.Section1.{Parsed, parse_section_1}
use meteodata_server.Synop.Total.{parse_ends}
use meteodata_server.Synop.Faults.{parse_section_4_strays, NotMark}
use meteodata_server.Synop.Report.{decoded}
use meteodata_server.Synop.Mandatory.{parse_section_1-report, with_first, with_wind, wind_groups}
use meteodata_server.Synop.Items
use meteodata_server.Synop.Extras
use meteodata_server.Synop.Whole.{
  Surface, surface_read, extra_meanings, message, section_1, parse_groups-report, section_2_hides,
}

abbrev codes : String → Text
codes String.[] = []
codes (String.◌∷◌ c s) = code c ∷ codes s

abbrev no_radiation : Radiations
no_radiation = record {
  net_short_wave = none;
  direct_solar = none;
  net = none;
  global_solar = none;
  diffused_solar = none;
  downward_long_wave = none;
  upward_long_wave = none;
  short_wave = none;
}

abbrev pub empty_message : SynopMessage
empty_message = record {
  station_icao = [];
  with_anemometer = false;
  wind_speed_unit = meters_per_second;
  observation_time = pos 0;
  manned = false;
  phenomena = not_available;
  sections = false ∷ false ∷ false ∷ false ∷ false ∷ false ∷ [];
  h_base_lowest_cloud = none;
  horiz_visibility = none;
  cloud_cover = none;
  mean_wind_direction = none;
  mean_wind_speed = none;
  mean_temperature = none;
  dew_point = none;
  relative_humidity = none;
  pressure_at_station = none;
  pressure_at_sea_level = none;
  isobaric_surface_potential = none;
  pressure_tendency = none;
  precipitation = [];
  low_or_medium_cloud_cover = none;
  low_clouds = none;
  medium_clouds = none;
  high_clouds = none;
  max_temperature = none;
  min_temperature = none;
  ground_state_without_snow_or_ice = none;
  min_soil_temperature = none;
  ground_state_with_snow_or_ice = none;
  snow_depth = none;
  gust_observations = [];
  evapo_maybe_transpi_ration = none;
  minutes_of_sunshine_last_day = none;
  minutes_of_sunshine_last_hour = none;
  last_hour = no_radiation;
  last_24_hours = no_radiation;
  clouds = [];
  low_clouds_drift = none;
  medium_clouds_drift = none;
  high_clouds_drift = none;
  height_of_base_of_clouds = [];
}

abbrev december : Text → Option ℤ
december s = some (pos 1700000000)

abbrev stamp : Text
stamp = codes "2023,01,15,12,00"

abbrev surface : Surface
surface = record {
  rain_indicator = 1;
  operation = 1;
  cloud_base = 5;
  visibility_tens = 6;
  visibility_units = 0;
  cover = 8;
  direction = 25;
  speed = 104;
}

abbrev items : List Items.Item
items =
    Items.temperature false 85
    ∷ Items.dew_point true 62
    ∷ Items.station_pressure 10012
    ∷ Items.sea_pressure 9987
    ∷ Items.tendency 7 6
    ∷ Items.not_known b'6' b'/' b'/' b'/' b'1'
    ∷ Items.cloud_cover 8 5 2 0
    ∷ []

abbrev extras : List Extras.Extra
extras =
    Extras.max_temperature false 120
    ∷ Extras.snowy_ground 3 12
    ∷ Extras.sunny_hour 7 (Extras.net false 1350)
    ∷ Extras.rain (Items.tenths 4) 1
    ∷ Extras.cloud_layer 3 8 14
    ∷ Extras.gust_10 25
    ∷ Extras.gust_over 10 110
    ∷ []

-- The whole text of such a message.
paris : Outcome (Bool × List Text × SynopMessage)
paris =
    parse december
      (codes
        "07149,2023,01,15,12,00,AAXX 15121 07149 11560 82599 00104 10085 21062 30012 49987 57006 6///1 88520 333 10120 43012 55307 01350 69941 83814 91025 90710 91199 00110=")
      empty_message

abbrev station : Text
station = codes "07149"

abbrev read_so_far : SynopMessage
read_so_far =
    surface_read december station stamp b'1' b'5' b'1' b'2' 1 station (pos 1700000000) refl
      (inr (inl refl)) surface items empty_message (omega arith) (omega arith) (omega arith)
      (omega arith)

parse_groups-report_example :
    parse_groups december
      (message december station stamp b'1' b'5' b'1' b'2' 1 station
        (pos 1700000000)
        refl
        (inr (inl refl))
        (section_1 surface items ((b'3' ∷ b'3' ∷ b'3' ∷ []) ∷ Extras.groups extras [])))
      empty_message
    ≡ ended (true, [], extra_meanings extras (mark 3 read_so_far))
parse_groups-report_example =
    parse_groups-report december station stamp b'1' b'5' b'1' b'2' 1 station (pos 1700000000) refl
      (inr (inl refl)) surface items empty_message (omega arith) (omega arith) (omega arith)
      (omega arith) extras (omega arith) (omega arith)

paris_lem : paris ≡ ended (true, [], extra_meanings extras (mark 3 read_so_far))
unfolding paris parse words_from trim_last digit
paris_lem = parse_groups-report_example

section_2_hides_example :
    parse_groups december
      (message december station stamp b'1' b'5' b'1' b'2' 1 station
        (pos 1700000000)
        refl
        (inr (inl refl))
        (section_1 surface items (codes "22200" ∷ Extras.groups extras [])))
      empty_message
    ≡ ended (true, codes "22200" ∷ Extras.groups extras [], read_so_far)
section_2_hides_example =
    section_2_hides december station stamp b'1' b'5' b'1' b'2' 1 station (pos 1700000000) refl
      (inr (inl refl)) surface items empty_message (omega arith) (omega arith) (omega arith)
      (omega arith) (codes "00") (Extras.groups extras [])

-- The dew point comes after the pressure.
abbrev out_of_order : List Items.Item
out_of_order =
    Items.temperature false 85
    ∷ Items.station_pressure 10012
    ∷ Items.dew_point true 62
    ∷ Items.sea_pressure 9987
    ∷ []

parse_section_1-report_example :
    parse_section_1
      (map digit (1 ∷ 1 ∷ 5 ∷ 6 ∷ 0 ∷ [])
        ∷ wind_groups 8 25 104 (map Items.group out_of_order ++ []))
      empty_message
    ≡ ended (decoded b'0' out_of_order [] (with_wind 8 25 104 (with_first 1 5 empty_message)))
parse_section_1-report_example =
    parse_section_1-report 1 1 5 6 0 8 25 104 out_of_order [] empty_message (omega arith)
      (omega arith) (omega arith) tt

parse_ends_example :
    let outcome = parse december (codes "07149,2023,01,15,12,00,AAXX 15121") empty_message in
    ((p : Parsed) × (outcome ≡ ended p)) ⊎ (outcome ≡ thrown) ⊎ (outcome ≡ undefined)
parse_ends_example = parse_ends december (codes "07149,2023,01,15,12,00,AAXX 15121") empty_message

parse_section_4_strays_example :
    (parse_section_4 (codes "444" ∷ codes "12345" ∷ []) empty_message ≡ undefined)
    ↔ All NotMark (codes "12345" ∷ [])
parse_section_4_strays_example = parse_section_4_strays (codes "12345" ∷ []) empty_message
