-- ===== src/Synop/Section3.antt =====
-- Section 3 (Parser::parseSection3). Some of its groups are read with one or two of those that follow.
use meteodata_server.Base.{
  ℕ, zero, suc, true, false, List, [], ◌∷◌, ◌++◌, Option, none, some, ltb, ◌==◌, if◌then◌else◌,
  length,
}
use meteodata_server.Base.Int.{ℤ, pos, ltb_ℤ}
use meteodata_server.Synop.{
  Text, Outcome, ended, undefined, exhausted, ◌>>=◌, index, same, parse_int, parse_sint,
}
use meteodata_server.Synop.Message.{
  SynopMessage, SnowDepth, cover_more_than_5_mm, cover_less_than_5_mm, discontinuous_cover,
  not_measured,
}
use meteodata_server.Synop.Groups.{parse_rain, height_of}
use meteodata_server.Synop.Sunshine.{Progress, next, broke, group_5}
use meteodata_server.Synop.Gusts.{group_9}
use meteodata_server.Synop.Section1.{Parsed, ends_section, push_rain}

-- The depth of snow, which the code computes.
abbrev pub snow_depth_of : ℤ → SnowDepth
snow_depth_of n =
    if ltb_ℤ n (pos 997)
    then record { depth = n; cover = cover_more_than_5_mm }
    else if ltb_ℤ n (pos 998)
    then record { depth = pos 0; cover = cover_less_than_5_mm }
    else if ltb_ℤ n (pos 999)
    then record { depth = pos 0; cover = discontinuous_cover }
    else record { depth = pos 0; cover = not_measured }

abbrev depth_read : Option ℤ → Option SnowDepth
depth_read none = none
depth_read (some n) = some (snow_depth_of n)

-- The precipitation of the last 24 hours, in tenths of mm.
abbrev rain_24 : Option ℤ → SynopMessage → SynopMessage
rain_24 none m = m
rain_24 (some n) m =
    push_rain
      (some (
        if ltb_ℤ n (pos 9999)
        then record { amount = n; trace = false; duration = pos 24 }
        else record { amount = pos 0; trace = true; duration = pos 24 }))
      m

abbrev pub cloud_base : Option ℤ → Text → SynopMessage → Outcome SynopMessage
cloud_base none s m = ended m
cloud_base (some code) s m = do
  height ← height_of code
  g ← index s 2
  n ← index s 1
  ended (record m {
    height_of_base_of_clouds =
        m.height_of_base_of_clouds
        ++ (record { genus = g; direction = b'9'; distance = height; nebulosity = n } ∷ []);
  })

abbrev pub ground_state : Text → SynopMessage → Outcome SynopMessage
ground_state s m = do
  c ← index s 1
  t ← parse_sint s 2
  ended (record m { ground_state_without_snow_or_ice = some c; min_soil_temperature = t })

-- The depth of snow is computed, and dropped.
abbrev pub ground_state_with_snow : Text → SynopMessage → Outcome SynopMessage
ground_state_with_snow s m = do
  c ← index s 1
  let depth = depth_read (parse_int s 2)
  ended (record m { ground_state_with_snow_or_ice = some c })

abbrev pub alone : List Text → Outcome SynopMessage → Outcome Progress
alone rest m = m >>= λ m'. ended (next rest m')

-- One group by its indicative, and the groups read with it.
unfoldable pub group_3 : Text → ℕ → List Text → SynopMessage → Outcome Progress
group_3 s indicative rest m =
    if indicative == b'1'
    then (parse_sint s 1 >>= λ t. ended (next rest (record m { max_temperature = t })))
    else if indicative == b'2'
    then (parse_sint s 1 >>= λ t. ended (next rest (record m { min_temperature = t })))
    else if indicative == b'3'
    then alone rest (ground_state s m)
    else if indicative == b'4'
    then alone rest (ground_state_with_snow s m)
    else if indicative == b'5'
    then group_5 s rest m
    else if indicative == b'6'
    then (parse_rain s >>= λ r. ended (next rest (push_rain r m)))
    else if indicative == b'7'
    then ended (next rest (rain_24 (parse_int s 1) m))
    else if indicative == b'8'
    then alone rest (cloud_base (parse_int s 3) s m)
    else if indicative == b'9'
    then group_9 s rest m
    else ended (next rest m)

-- The loop, on fuel: one unit for each turn.
unfoldable pub groups_3 : ℕ → ℕ → List Text → SynopMessage → Outcome Parsed
groups_3 fuel indicative [] m = ended (true, [], m)
groups_3 zero indicative (s ∷ rest) m = exhausted
groups_3 (suc fuel) indicative (s ∷ rest) m =
    if ends_section s
    then ended (true, s ∷ rest, m)
    else (index s 0 >>= λ c.
        if ltb c indicative
        then ended (false, s ∷ rest, m)
        else (group_3 s c rest m >>= λ p. elim p [
          | next left m' ↦ groups_3 fuel c left m'
          | broke m' ↦ ended (true, [], m')
        ]))

unfoldable pub parse_section_3 : List Text → SynopMessage → Outcome Parsed
unfolding groups_3
parse_section_3 [] m = undefined
parse_section_3 (s ∷ rest) m =
    if same s (b'3' ∷ b'3' ∷ b'3' ∷ [])
    then groups_3 (length rest) b'0' rest m
    else ended (false, s ∷ rest, m)
