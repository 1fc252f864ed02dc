-- ===== src/Synop/Sunshine.antt =====
-- The groups of section 3 that begin with 5: sunshine, radiation, clouds and evaporation.
use meteodata_server.Base.{ℕ, ◌||◌, List, [], ◌∷◌, ◌++◌, Option, none, some, ◌==◌, if◌then◌else◌}
use meteodata_server.Base.Int.{ℤ, pos, ◌*ℤ◌}
use meteodata_server.Synop.{
  Text, Outcome, ended, ◌>>=◌, at, index, same, parse_int, parse_int_until, parse_sint,
}
use meteodata_server.Synop.Message.{SynopMessage, Radiations}

-- What is left after a group and those read with it; `broke` when the groups end in the middle.
pub data Progress : Type 0 where
  next : List Text → SynopMessage → Progress
  broke : SynopMessage → Progress

-- A duration of sunshine in tenths of hours, in minutes.
abbrev sunshine : Option ℤ → Option ℤ → Option ℤ
sunshine none before = before
sunshine (some n) before = some (n *ℤ pos 6)

-- The group after a duration of sunshine: which radiation it gives. The net one is signed, its sign
-- read at `start`.
abbrev pub radiation : Text → ℕ → Radiations → Outcome Radiations
radiation t start r = do
  c ← at t 0
  net ← if c == b'0' || c == b'1' then parse_sint t start else ended none
  let n = parse_int t 1
  ended (
      if c == b'0' || c == b'1'
      then record r { net = net }
      else if c == b'2'
      then record r { global_solar = n }
      else if c == b'3'
      then record r { diffused_solar = n }
      else if c == b'4'
      then record r { downward_long_wave = n }
      else if c == b'5'
      then record r { upward_long_wave = n }
      else if c == b'6'
      then record r { short_wave = n }
      else r)

abbrev pub sunshine_hour : Text → List Text → SynopMessage → Outcome Progress
sunshine_hour s [] m = ended (
    broke (record m {
      minutes_of_sunshine_last_hour = sunshine (parse_int s 3) m.minutes_of_sunshine_last_hour;
    }))
sunshine_hour s (t ∷ rest) m = radiation t 1 m.last_hour >>= λ r. ended (
    next rest (record m {
      minutes_of_sunshine_last_hour = sunshine (parse_int s 3) m.minutes_of_sunshine_last_hour;
      last_hour = r;
    }))

abbrev pub sunshine_day : Text → List Text → SynopMessage → Outcome Progress
sunshine_day s [] m = ended (
    broke (record m {
      minutes_of_sunshine_last_day = sunshine (parse_int s 2) m.minutes_of_sunshine_last_day;
    }))
sunshine_day s (t ∷ rest) m = radiation t 0 m.last_24_hours >>= λ r. ended (
    next rest (record m {
      minutes_of_sunshine_last_day = sunshine (parse_int s 2) m.minutes_of_sunshine_last_day;
      last_24_hours = r;
    }))

-- A radiation in the group after one of the four that announce it.
abbrev pub announced : (Option ℤ → SynopMessage) → List Text → SynopMessage → Outcome Progress
announced keep [] m = ended (broke m)
announced keep (t ∷ rest) m = ended (next rest (keep (parse_int t 1)))

abbrev pub drifts : Text → List Text → SynopMessage → Outcome Progress
drifts s rest m = do
  l ← index s 2
  k ← index s 3
  h ← index s 4
  ended (
      next rest (record m {
        low_clouds_drift = some l;
        medium_clouds_drift = some k;
        high_clouds_drift = some h;
      }))

abbrev pub elevation : Text → List Text → SynopMessage → Outcome Progress
elevation s rest m = do
  g ← index s 2
  d ← index s 3
  a ← index s 4
  ended (
      next rest
        (record m { clouds = m.clouds ++ (record { genus = g; direction = d; angle = a } ∷ []) }))

abbrev pub evaporation : Option ℤ → Text → SynopMessage → Outcome SynopMessage
evaporation none s m = ended m
evaporation (some n) s m = index s 4 >>= λ c.
    ended
      (record m { evapo_maybe_transpi_ration = some (record { instrumentation = c; amount = n }) })

-- The other groups that begin with 5, by their second and third characters.
abbrev pub group_5_other : Text → ℕ → List Text → SynopMessage → Outcome Progress
group_5_other s c rest m =
    if c == b'5'
    then (index s 2 >>= λ d. if d == b'3' then sunshine_hour s rest m else sunshine_day s rest m)
    else if c == b'4' || c == b'8' || c == b'9'
    then ended (next rest m)
    else if c == b'6'
    then drifts s rest m
    else if c == b'7'
    then elevation s rest m
    else (evaporation (parse_int_until s 1 3) s m >>= λ m'. ended (next rest m'))

unfoldable pub group_5 : Text → List Text → SynopMessage → Outcome Progress
group_5 s rest m =
    if same s (b'5' ∷ b'5' ∷ b'4' ∷ b'0' ∷ b'7' ∷ [])
    then announced (λ n. record m { last_hour = record m.last_hour { short_wave = n } }) rest m
    else if same s (b'5' ∷ b'5' ∷ b'4' ∷ b'0' ∷ b'8' ∷ [])
    then announced (λ n. record m { last_hour = record m.last_hour { direct_solar = n } }) rest m
    else if same s (b'5' ∷ b'5' ∷ b'5' ∷ b'0' ∷ b'7' ∷ [])
    then announced (λ n. record m { last_24_hours = record m.last_24_hours { short_wave = n } })
        rest m
    else if same s (b'5' ∷ b'5' ∷ b'5' ∷ b'0' ∷ b'8' ∷ [])
    then announced (λ n. record m { last_24_hours = record m.last_24_hours { direct_solar = n } })
        rest m
    else (index s 1 >>= λ c. group_5_other s c rest m)
