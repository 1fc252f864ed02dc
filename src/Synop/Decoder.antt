-- ===== src/Synop/Decoder.antt =====
-- The other sections, and the whole message (Parser::parse).
use meteodata_server.Base.{
  ℕ, zero, suc, Bool, true, false, ◌&&◌, ◌||◌, not, List, [], ◌∷◌, ◌++◌, Option, ltb, ◌==◌,
  if◌then◌else◌, length, take, drop,
}
use meteodata_server.Base.Int.{ℤ}
use meteodata_server.HexParser.{isspace}
use meteodata_server.Synop.{
  Text, Outcome, ended, undefined, exhausted, ◌>>=◌, at, index, same, all_are,
}
use meteodata_server.Synop.Message.{SynopMessage}
use meteodata_server.Synop.Groups.{parse_rain}
use meteodata_server.Synop.Section1.{Parsed, push_rain, parse_section_0, parse_section_1}
use meteodata_server.Synop.Sunshine.{Progress, next, broke}
use meteodata_server.Synop.Gusts.{timed_gust}
use meteodata_server.Synop.Section3.{parse_section_3}

-- The groups up to one of three characters are skipped.
unfoldable pub skip_section : List Text → SynopMessage → Parsed
skip_section [] m = (true, [], m)
skip_section (s ∷ rest) m = if length s == 3 then (true, s ∷ rest, m) else skip_section rest m

-- `at(0) != '2' && at(1) != '2' && at(2) != '2'`
abbrev pub differs : Text → Outcome Bool
differs s = do
  a ← at s 0
  b ← if a == b'2' then ended b'2' else at s 1
  c ← if a == b'2' || b == b'2' then ended b'2' else at s 2
  ended (not (a == b'2') && not (b == b'2') && not (c == b'2'))

unfoldable pub parse_section_2 : List Text → SynopMessage → Outcome Parsed
parse_section_2 [] m = ended (false, [], m)
parse_section_2 (s ∷ rest) m =
    differs s >>= λ other. ended (if other then (false, s ∷ rest, m) else skip_section rest m)

-- `while (it->length() != 3 && it != _groups.end())`: the length is read before the end is tested.
unfoldable pub skip_section_4 : List Text → SynopMessage → Outcome Parsed
skip_section_4 [] m = undefined
skip_section_4 (s ∷ rest) m =
    let later = skip_section_4 rest m in if length s == 3 then ended (true, s ∷ rest, m) else later

unfoldable pub parse_section_4 : List Text → SynopMessage → Outcome Parsed
parse_section_4 [] m = undefined
parse_section_4 (s ∷ rest) m =
    if same s (b'4' ∷ b'4' ∷ b'4' ∷ []) then skip_section_4 rest m else ended (false, s ∷ rest, m)

abbrev pub skip_one_or_break : List Text → SynopMessage → Outcome Progress
skip_one_or_break [] m = ended (broke m)
skip_one_or_break (t ∷ rest) m = ended (next rest m)

abbrev pub section_5_90 : Text → ℕ → List Text → SynopMessage → Outcome Progress
section_5_90 s d rest m =
    if d == b'7'
    then timed_gust s rest m
    else if d == b'2' || d == b'4'
    then skip_one_or_break rest m
    else ended (next rest m)

abbrev pub section_5_9 : Text → List Text → SynopMessage → Outcome Progress
section_5_9 s rest m = do
  c ← index s 1
  d ← if c == b'0' then index s 2 else ended 0
  if c == b'0' then section_5_90 s d rest m else ended (next rest m)

unfoldable pub section_5_group : Text → ℕ → List Text → SynopMessage → Outcome Progress
unfolding timed_gust
section_5_group s indicative rest m =
    if indicative == b'6'
    then (parse_rain s >>= λ r. ended (next rest (push_rain r m)))
    else if indicative == b'9'
    then section_5_9 s rest m
    else ended (next rest m)

-- The loop, on fuel.
unfoldable pub section_5_groups : ℕ → List Text → SynopMessage → Outcome Parsed
section_5_groups fuel [] m = ended (true, [], m)
section_5_groups zero (s ∷ rest) m = exhausted
section_5_groups (suc fuel) (s ∷ rest) m = index s 0 >>= λ c. section_5_group s c rest m >>= λ p.
    elim p [ next left m' ↦ section_5_groups fuel left m' | broke m' ↦ ended (true, [], m') ]

unfoldable pub parse_section_5 : List Text → SynopMessage → Outcome Parsed
unfolding section_5_groups
parse_section_5 [] m = undefined
parse_section_5 (s ∷ rest) m =
    if same s (b'5' ∷ b'5' ∷ b'5' ∷ [])
    then section_5_groups (length rest) rest m
    else ended (false, s ∷ rest, m)

abbrev mark_in : ℕ → List Bool → List Bool
mark_in i [] = []
mark_in zero (b ∷ bs) = true ∷ bs
mark_in (suc i) (b ∷ bs) = b ∷ mark_in i bs

-- `_message._sections[i] = true`
abbrev pub mark : ℕ → SynopMessage → SynopMessage
mark i m = record m { sections = mark_in i m.sections }

abbrev begins_with : Text → List Text → Bool
begins_with s [] = false
begins_with s (t ∷ rest) = same t s

-- A section that is read if the group at hand is its mark, after one that has not failed.
abbrev pub possibly :
    ℕ → Text → (List Text → SynopMessage → Outcome Parsed) → Parsed → Outcome Parsed
possibly i name parse (false, groups, m) = ended (false, groups, m)
possibly i name parse (true, groups, m) =
    if begins_with name groups then parse groups (mark i m) else ended (true, groups, m)

-- `(*it)[0] == 2 && (*it)[1] == 2 && (*it)[2] == 2`: the characters are compared with the number 2.
abbrev pub begins_section_2 : List Text → Outcome Bool
begins_section_2 [] = ended false
begins_section_2 (s ∷ rest) = all_are s ((0, 2) ∷ (1, 2) ∷ (2, 2) ∷ [])

unfoldable pub possibly_section_2 : Parsed → Outcome Parsed
possibly_section_2 (r, groups, m) = begins_section_2 groups >>= λ begins.
    if begins then parse_section_2 groups (mark 2 m) else ended (r, groups, m)

-- What follows section 1.
unfoldable pub later_sections : Parsed → Outcome Parsed
later_sections parsed = do
  p ← possibly_section_2 parsed
  p ← possibly 3 (b'3' ∷ b'3' ∷ b'3' ∷ []) parse_section_3 p
  p ← possibly 4 (b'4' ∷ b'4' ∷ b'4' ∷ []) parse_section_4 p
  possibly 5 (b'5' ∷ b'5' ∷ b'5' ∷ []) parse_section_5 p

abbrev pub after_section_0 : Parsed → Outcome Parsed
after_section_0 (false, groups, m) = ended (false, groups, m)
after_section_0 (true, groups, m) = parse_section_1 groups (mark 1 m) >>= later_sections

-- The sections, from the first group.
unfoldable pub parse_groups : (Text → Option ℤ) → List Text → SynopMessage → Outcome Parsed
parse_groups parse_time groups m = parse_section_0 parse_time groups (mark 0 m) >>= after_section_0

-- `>>` on a string: the words of the stream, between blanks; the first argument is the word begun.
abbrev flush : Text → List Text → List Text
flush [] words = words
flush (c ∷ word) words = (c ∷ word) ∷ words

unfoldable pub words_from : Text → Text → List Text
words_from word [] = flush word []
words_from word (c ∷ s) =
    let ended_here = flush word (words_from [] s) in
    let goes_on = words_from (word ++ (c ∷ [])) s in if isspace c then ended_here else goes_on

-- The padding of the last group is cut.
unfoldable pub trim_last : List Text → List Text
trim_last [] = []
trim_last (s ∷ []) = (if ltb 5 (length s) then take 5 s else s) ∷ []
trim_last (s ∷ t ∷ rest) = s ∷ trim_last (t ∷ rest)

abbrev pub all_groups : Text → List Text → List Text
all_groups first rest =
    trim_last (take 5 first ∷ take 16 (drop 6 first) ∷ take 4 (drop 23 first) ∷ rest)

abbrev pub parse_words : (Text → Option ℤ) → List Text → SynopMessage → Outcome Parsed
parse_words parse_time [] m = ended (false, [], m)
parse_words parse_time (first ∷ rest) m =
    if length first == 27
    then parse_groups parse_time (all_groups first rest) m
    else ended (false, [], m)

-- Parser::parse, on the text of one message.
unfoldable pub parse : (Text → Option ℤ) → Text → SynopMessage → Outcome Parsed
unfolding words_from
parse parse_time text m = parse_words parse_time (words_from [] text) m
