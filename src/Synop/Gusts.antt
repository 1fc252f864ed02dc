-- ===== src/Synop/Gusts.antt =====
-- The groups that begin with 9, in sections 3 and 5.
use meteodata_server.Base.{
  ℕ, Bool, false, ◌||◌, ◌&&◌, List, [], ◌∷◌, ◌++◌, Option, none, some, ◌==◌, if◌then◌else◌,
}
use meteodata_server.Base.Int.{ℤ, pos, ◌*ℤ◌, ltb_ℤ}
use meteodata_server.Synop.{Text, Outcome, ended, undefined, ◌>>=◌, index, all_are, parse_int}
use meteodata_server.Synop.Message.{SynopMessage}
use meteodata_server.Synop.Sunshine.{Progress, next, broke}

abbrev pub push_gust : Option ℤ → ℤ → SynopMessage → SynopMessage
push_gust none duration m = m
push_gust (some speed) duration m = record m {
  gust_observations = m.gust_observations ++ (record { speed = speed; duration = duration } ∷ []);
}

abbrev is_short : Option ℤ → Bool
is_short none = false
is_short (some n) = ltb_ℤ n (pos 61)

abbrev minutes : Option ℤ → ℤ
minutes none = pos 0
minutes (some n) = n *ℤ pos 6

-- The gust of a group 911, in the next group if it is 99 or more.
abbrev pub long_gust : ℤ → List Text → SynopMessage → Outcome Progress
long_gust duration [] m = ended (broke m)
long_gust duration (u ∷ rest) m = all_are u ((0, b'0') ∷ (1, b'0') ∷ []) >>= λ zeros.
    ended (next rest (push_gust (if zeros then parse_int u 2 else none) duration m))

abbrev pub gust : ℤ → Text → List Text → SynopMessage → Outcome Progress
gust duration t rest m = all_are t ((3, b'9') ∷ (4, b'9') ∷ []) >>= λ long.
    if long
    then long_gust duration rest m
    else ended (next rest (push_gust (parse_int t 3) duration m))

-- A group 907 (a duration, in tenths of hours) and the one after it.
unfoldable pub timed_gust : Text → List Text → SynopMessage → Outcome Progress
timed_gust s [] m = ended (broke m)
timed_gust s (t ∷ rest) m =
    let duration = parse_int s 3 in
    if is_short duration
    then (all_are t ((1, b'1') ∷ (2, b'1') ∷ []) >>= λ highest.
        if highest then gust (minutes duration) t rest m else ended (next rest m))
    else ended (next rest m)

-- A group 902 or 904 is skipped with the one after it, whether there is one or not.
abbrev pub skip_one : List Text → SynopMessage → Outcome Progress
skip_one [] m = undefined
skip_one (t ∷ rest) m = ended (next rest m)

abbrev pub group_90 : Text → ℕ → List Text → SynopMessage → Outcome Progress
group_90 s d rest m =
    if d == b'7'
    then timed_gust s rest m
    else if d == b'2' || d == b'4'
    then skip_one rest m
    else ended (next rest m)

unfoldable pub group_9 : Text → List Text → SynopMessage → Outcome Progress
unfolding timed_gust
group_9 s rest m = do
  c ← index s 1
  d ← if c == b'1' || c == b'0' then index s 2 else ended 0
  if c == b'1' && d == b'0'
      then ended (next rest (push_gust (parse_int s 3) (pos 10) m))
      else if c == b'0'
      then group_90 s d rest m
      else ended (next rest m)
