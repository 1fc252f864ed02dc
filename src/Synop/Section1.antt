-- ===== src/Synop/Section1.antt =====
-- Sections 0 and 1 (Parser::parseSection0 and Parser::parseSection1). The iterator is the list of the
-- groups left; to read or to step past its end is undefined.
use meteodata_server.Base.{
  ℕ, ◌+◌, ◌*◌, Bool, true, false, ◌&&◌, ◌||◌, not, List, [], ◌∷◌, ◌++◌, Option, none, some, ltb,
  ◌==◌, if◌then◌else◌, length, take,
}
use meteodata_server.Base.Int.{ℤ, pos, ◌+ℤ◌, ◌*ℤ◌, ltb_ℤ}
use meteodata_server.Synop.{
  Text, Outcome, ended, undefined, ◌>>=◌, at, index, same, any_is, none_at, parse_int,
  parse_int_until, parse_sint, value,
}
use meteodata_server.Synop.Message.{
  SynopMessage, meters_per_second, knots, PhenomenaObservationsAvailable, basic_observations,
  advanced_observations, no_phenomenon, not_observed, PrecipitationAmount,
}
use meteodata_server.Synop.Groups.{parse_rain, h_of, visibility_of}

-- What a section returns, with the groups left and the message.
abbrev pub Parsed : Type 0
Parsed = Bool × List Text × SynopMessage

-- i_w
abbrev pub wind_indicator : ℕ → SynopMessage → SynopMessage
wind_indicator c m =
    if c == b'0'
    then record m { with_anemometer = false; wind_speed_unit = meters_per_second }
    else if c == b'1'
    then record m { with_anemometer = true; wind_speed_unit = meters_per_second }
    else if c == b'3'
    then record m { with_anemometer = false; wind_speed_unit = knots }
    else if c == b'4'
    then record m { with_anemometer = true; wind_speed_unit = knots }
    else m

-- `date::parse`, which leaves the time as it is where it cannot read one.
abbrev pub time_read : Option ℤ → SynopMessage → SynopMessage
time_read none m = m
time_read (some t) m = record m { observation_time = t }

abbrev pub station_read : List Text → SynopMessage → Parsed
station_read [] m = (false, [], m)
station_read (icao ∷ rest) m = (true, rest, record m { station_icao = icao })

abbrev pub indicator_read : List Text → SynopMessage → Outcome Parsed
indicator_read [] m = ended (false, [], m)
indicator_read (s ∷ rest) m = at s 4 >>= λ c. ended (station_read rest (wind_indicator c m))

abbrev pub type_read : List Text → SynopMessage → Outcome Parsed
type_read [] m = ended (false, [], m)
type_read (s ∷ rest) m =
    if same s (b'A' ∷ b'A' ∷ b'X' ∷ b'X' ∷ [])
    then indicator_read rest m
    else ended (false, s ∷ rest, m)

unfoldable pub parse_section_0 : (Text → Option ℤ) → List Text → SynopMessage → Outcome Parsed
parse_section_0 parse_time [] m = undefined
parse_section_0 parse_time (icao ∷ []) m = ended (false, [], m)
parse_section_0 parse_time (icao ∷ s ∷ rest) m = type_read rest (time_read (parse_time s) m)

-- i_x
abbrev pub phenomena_of : ℕ → PhenomenaObservationsAvailable → PhenomenaObservationsAvailable
phenomena_of c before =
    if c == b'1' || c == b'4'
    then advanced_observations
    else if c == b'2' || c == b'5'
    then no_phenomenon
    else if c == b'3' || c == b'6'
    then not_observed
    else if c == b'7'
    then basic_observations
    else before

-- The first group. `it->at(3) != '/' && it->at(4) != '/'`, with the two characters as they are.
unfoldable pub first_group : Text → SynopMessage → Outcome SynopMessage
first_group s m = do
  ix ← at s 1
  h ← at s 2
  known ← none_at b'/' s (3 ∷ 4 ∷ [])
  v ← index s 3
  w ← index s 4
  ended (record m {
    manned = ltb ix 4;
    phenomena = phenomena_of ix m.phenomena;
    h_base_lowest_cloud = h_of h m.h_base_lowest_cloud;
    horiz_visibility =
        if known then visibility_of (v * 10 + w) m.horiz_visibility else m.horiz_visibility;
  })

abbrev pub direction_read : Option ℤ → SynopMessage → SynopMessage
direction_read none m = m
direction_read (some n) m = record m { mean_wind_direction = some (n *ℤ pos 10) }

-- The group after a wind of 99: whether it begins with `00`, and the wind that it gives.
abbrev known_wind : Text → Bool → SynopMessage → SynopMessage
known_wind s known m = if known then record m { mean_wind_speed = parse_int s 2 } else m

abbrev pub long_wind : Text → SynopMessage → Outcome (Bool × SynopMessage)
long_wind s m = do
  a ← at s 0
  b ← if a == b'0' then at s 1 else ended a
  if a == b'0' && b == b'0'
      then (none_at b'/' s (2 ∷ 3 ∷ 4 ∷ []) >>= λ known. ended (true, known_wind s known m))
      else ended (false, m)

-- The indicative of the last group read, the optional groups.
abbrev pub ends_section : Text → Bool
ends_section s = same (take 3 s) (b'2' ∷ b'2' ∷ b'2' ∷ []) || length s == 3

-- A pressure in tenths of hPa lacks its thousands of hPa above 1000 hPa.
abbrev pub full_pressure : Option ℤ → Option ℤ
full_pressure none = none
full_pressure (some p) = some (if ltb_ℤ p (pos 5000) then p +ℤ pos 10000 else p)

abbrev pub push_rain : Option PrecipitationAmount → SynopMessage → SynopMessage
push_rain none m = m
push_rain (some r) m = record m { precipitation = m.precipitation ++ (r ∷ []) }

abbrev humidity_or_dew_point : Text → ℕ → SynopMessage → Outcome SynopMessage
humidity_or_dew_point s c m =
    if c == b'9'
    then ended (record m { relative_humidity = parse_int s 2 })
    else parse_sint s 1 >>= λ t. ended (record m { dew_point = t })

abbrev surface_potential : ℕ → ℤ → SynopMessage → SynopMessage
surface_potential c n m = record m {
  isobaric_surface_potential = some (record { standard_isobaric_surface = c; geopotential = n });
}

abbrev sea_or_surface : Text → ℕ → SynopMessage → Outcome SynopMessage
sea_or_surface s c m =
    if not (c == b'0') && not (c == b'9')
    then (value (parse_int s 2) >>= λ n. ended (surface_potential c n m))
    else ended (record m { pressure_at_sea_level = full_pressure (parse_int s 1) })

abbrev tendency : Text → SynopMessage → Outcome SynopMessage
tendency s m = do
  c ← index s 1
  n ← value (parse_int s 2)
  ended (record m { pressure_tendency = some (record { description = c; amount = n }) })

abbrev cloud_layers : Text → SynopMessage → Outcome SynopMessage
cloud_layers s m = do
  n ← index s 1
  l ← index s 2
  k ← index s 3
  h ← index s 4
  ended (record m {
    low_or_medium_cloud_cover = some n;
    low_clouds = some l;
    medium_clouds = some k;
    high_clouds = some h;
  })

-- One optional group without '/', by its indicative. Those with 7 and 9 are not used.
unfoldable pub report_group : Text → ℕ → SynopMessage → Outcome SynopMessage
report_group s indicative m =
    if indicative == b'1'
    then (parse_sint s 1 >>= λ t. ended (record m { mean_temperature = t }))
    else if indicative == b'2'
    then (index s 1 >>= λ c. humidity_or_dew_point s c m)
    else if indicative == b'3'
    then ended (record m { pressure_at_station = full_pressure (parse_int s 1) })
    else if indicative == b'4'
    then (index s 1 >>= λ c. sea_or_surface s c m)
    else if indicative == b'5'
    then tendency s m
    else if indicative == b'6'
    then (parse_rain s >>= λ r. ended (push_rain r m))
    else if indicative == b'8'
    then cloud_layers s m
    else ended m

unfoldable pub read_group : Text → ℕ → SynopMessage → Outcome SynopMessage
unfolding report_group
read_group s indicative m = any_is b'/' s (1 ∷ 2 ∷ 3 ∷ 4 ∷ []) >>= λ missing.
    if missing then ended m else report_group s indicative m

-- The loop over the optional groups.
unfoldable pub optional_groups : ℕ → List Text → SynopMessage → Outcome Parsed
optional_groups indicative [] m = ended (true, [], m)
optional_groups indicative (s ∷ rest) m =
    let later = λ (c : ℕ) (m' : SynopMessage). optional_groups c rest m' in
    if ends_section s
    then ended (true, s ∷ rest, m)
    else index s 0 >>= λ c.
        if ltb c indicative then ended (false, s ∷ rest, m) else read_group s c m >>= later c

-- The wind, and the optional groups after it.
abbrev pub is_99 : ℤ → Bool
is_99 ff = not (ltb_ℤ ff (pos 99)) && not (ltb_ℤ (pos 99) ff)

abbrev after_long_wind : List Text → Text → Bool × SynopMessage → Outcome Parsed
after_long_wind rest s (begins, m) =
    if begins then optional_groups b'0' rest m else ended (false, s ∷ rest, m)

abbrev pub wind_speed : Option ℤ → List Text → SynopMessage → Outcome Parsed
wind_speed none rest m = optional_groups b'0' rest m
wind_speed (some ff) [] m =
    if is_99 ff
    then ended (false, [], m)
    else optional_groups b'0' [] (record m { mean_wind_speed = some ff })
wind_speed (some ff) (s ∷ rest) m =
    if is_99 ff
    then (long_wind s m >>= after_long_wind rest s)
    else optional_groups b'0' (s ∷ rest) (record m { mean_wind_speed = some ff })

abbrev pub second_group : List Text → SynopMessage → Outcome Parsed
second_group [] m = ended (false, [], m)
second_group (s ∷ rest) m = at s 0 >>= λ n.
    wind_speed (parse_int s 3) rest
      (direction_read (parse_int_until s 1 2) (record m { cloud_cover = some n }))

unfoldable pub parse_section_1 : List Text → SynopMessage → Outcome Parsed
unfolding first_group
parse_section_1 [] m = undefined
parse_section_1 (s ∷ rest) m =
    if not (length s == 5)
    then ended (false, s ∷ rest, m)
    else first_group s m >>= second_group rest
