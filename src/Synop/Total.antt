-- ===== src/Synop/Total.antt =====
-- The loops of the decoder have enough fuel, whatever the text.
use meteodata_server.Base.{
  ℕ, zero, suc, ◌≤◌, ◌≡◌, ◌⊎◌, inl, inr, refl, arith, true, false, List, [], ◌∷◌, Option, none,
  some, ltb, length,
}
use meteodata_server.Base.Int.{ℤ}
use meteodata_server.Synop.{Text, Outcome, ended, thrown, undefined, ◌>>=◌}
use meteodata_server.Synop.Message.{SynopMessage}
use meteodata_server.Synop.Section1.{
  Parsed, ends_section, read_group, report_group, optional_groups, wind_speed, second_group,
  parse_section_0, parse_section_1, indicator_read, type_read,
}
use meteodata_server.Synop.Sunshine.{Progress, next, broke}
use meteodata_server.Synop.Section3.{groups_3, parse_section_3}
use meteodata_server.Synop.Decoder.{
  begins_section_2, after_section_0, parse_words, mark, words_from, section_5_group,
  section_5_groups, parse_section_2, skip_section_4, parse_section_4, parse_section_5, possibly,
  possibly_section_2, later_sections, parse_groups, parse,
}
use meteodata_server.Synop.Termination.{
  Fine, Ends, Shrinks, returns, throws, strays, ends, shrinks, group_3-Shrinks, timed_gust-Shrinks,
  Fine->>=, Fine-if, index-Ends,
}

-- A call that may break off, then a loop with fuel for what is left.
Fine-progress :
    (rest : List Text) (fuel : ℕ) (o : Outcome Progress)
    (k : List Text → SynopMessage → Outcome Parsed)
    → length rest ≤ fuel
    → Fine (Shrinks rest) o
    → ((left : List Text) (m : SynopMessage) → length left ≤ fuel → Ends (k left m))
    → Ends (o >>= λ p. elim p [ next left m ↦ k left m | broke m ↦ ended (true, [], m) ])
Fine-progress rest fuel o k enough (returns (next left m) shrinks) loop = loop left m (omega arith)
Fine-progress rest fuel o k enough (returns (broke m) shrinks) loop = returns _ tt
Fine-progress rest fuel o k enough throws loop = throws
Fine-progress rest fuel o k enough strays loop = strays

groups_3-Ends :
    (fuel last : ℕ) (groups : List Text) (m : SynopMessage)
    → length groups ≤ fuel
    → Ends (groups_3 fuel last groups m)
unfolding groups_3
groups_3-Ends fuel last [] m enough = returns _ tt
groups_3-Ends zero last (s ∷ rest) m enough = absurd (omega arith)
groups_3-Ends (suc fuel) last (s ∷ rest) m enough = Fine-if _ (ends_section s) _ _ (returns _ tt) (
    Fine->>= _ _ _ (index-Ends s 0) (λ c. Fine-if _ (ltb c last) _ _ (returns _ tt) (
      Fine-progress rest fuel _ _ (omega arith) (group_3-Shrinks s c rest m)
        (λ left m' h. groups_3-Ends fuel c left m' h))))

section_5_group-Shrinks :
    (s : Text) (c : ℕ) (rest : List Text) (m : SynopMessage)
    → Fine (Shrinks rest) (section_5_group s c rest m)
unfolding section_5_group
section_5_group-Shrinks s c [] m = search shrinks depth 20 fits 5000
section_5_group-Shrinks s c (t ∷ rest) m = search (shrinks, timed_gust-Shrinks) depth 20 fits 5000

section_5_groups-Ends :
    (fuel : ℕ) (groups : List Text) (m : SynopMessage)
    → length groups ≤ fuel
    → Ends (section_5_groups fuel groups m)
unfolding section_5_groups
section_5_groups-Ends fuel [] m enough = returns _ tt
section_5_groups-Ends zero (s ∷ rest) m enough = absurd (omega arith)
section_5_groups-Ends (suc fuel) (s ∷ rest) m enough = Fine->>= _ _ _ (index-Ends s 0) (λ c.
    Fine-progress rest fuel _ _ (omega arith) (section_5_group-Shrinks s c rest m)
      (λ left m' h. section_5_groups-Ends fuel left m' h))

read_group-Ends : (s : Text) (c : ℕ) (m : SynopMessage) → Ends (read_group s c m)
unfolding read_group report_group
read_group-Ends s c m = search ends depth 20 fits 5000

optional_groups-Ends :
    (last : ℕ) (groups : List Text) (m : SynopMessage) → Ends (optional_groups last groups m)
unfolding optional_groups
optional_groups-Ends last [] m = returns _ tt
optional_groups-Ends last (s ∷ rest) m =
    search (ends, read_group-Ends, λ (c : ℕ) (m' : SynopMessage). optional_groups-Ends c rest m')
      depth 9

wind_speed-Ends :
    (ff : Option ℤ) (groups : List Text) (m : SynopMessage) → Ends (wind_speed ff groups m)
wind_speed-Ends none groups m = optional_groups-Ends _ groups m
wind_speed-Ends (some ff) [] m = search (ends, optional_groups-Ends) depth 9
wind_speed-Ends (some ff) (s ∷ rest) m = search (ends, optional_groups-Ends) depth 9

indicator_read-Ends : (groups : List Text) (m : SynopMessage) → Ends (indicator_read groups m)
indicator_read-Ends [] m = returns _ tt
indicator_read-Ends (s ∷ rest) m = search ends

type_read-Ends : (groups : List Text) (m : SynopMessage) → Ends (type_read groups m)
type_read-Ends [] m = returns _ tt
type_read-Ends (s ∷ rest) m = search (ends, indicator_read-Ends)

parse_section_0-Ends :
    (parse_time : Text → Option ℤ) (groups : List Text) (m : SynopMessage)
    → Ends (parse_section_0 parse_time groups m)
unfolding parse_section_0
parse_section_0-Ends parse_time [] m = strays
parse_section_0-Ends parse_time (icao ∷ []) m = returns _ tt
parse_section_0-Ends parse_time (icao ∷ s ∷ rest) m = type_read-Ends rest _

second_group-Ends : (groups : List Text) (m : SynopMessage) → Ends (second_group groups m)
second_group-Ends [] m = returns _ tt
second_group-Ends (s ∷ rest) m = search (ends, wind_speed-Ends)

parse_section_1-Ends : (groups : List Text) (m : SynopMessage) → Ends (parse_section_1 groups m)
unfolding parse_section_1
parse_section_1-Ends [] m = strays
parse_section_1-Ends (s ∷ rest) m = search (ends, second_group-Ends) depth 12

parse_section_2-Ends : (groups : List Text) (m : SynopMessage) → Ends (parse_section_2 groups m)
unfolding parse_section_2
parse_section_2-Ends [] m = returns _ tt
parse_section_2-Ends (s ∷ rest) m = search ends depth 12

parse_section_3-Ends : (groups : List Text) (m : SynopMessage) → Ends (parse_section_3 groups m)
unfolding parse_section_3
parse_section_3-Ends [] m = strays
parse_section_3-Ends (s ∷ rest) m =
    Fine-if _ _ _ _ (groups_3-Ends _ _ rest m (omega arith)) (returns _ tt)

skip_section_4-Ends : (groups : List Text) (m : SynopMessage) → Ends (skip_section_4 groups m)
unfolding skip_section_4
skip_section_4-Ends [] m = strays
skip_section_4-Ends (s ∷ rest) m = search (ends, skip_section_4-Ends rest m)

parse_section_4-Ends : (groups : List Text) (m : SynopMessage) → Ends (parse_section_4 groups m)
unfolding parse_section_4
parse_section_4-Ends [] m = strays
parse_section_4-Ends (s ∷ rest) m = search (ends, skip_section_4-Ends)

parse_section_5-Ends : (groups : List Text) (m : SynopMessage) → Ends (parse_section_5 groups m)
unfolding parse_section_5
parse_section_5-Ends [] m = strays
parse_section_5-Ends (s ∷ rest) m =
    Fine-if _ _ _ _ (section_5_groups-Ends _ rest m (omega arith)) (returns _ tt)

possibly-Ends :
    (i : ℕ) (name : Text) (section : List Text → SynopMessage → Outcome Parsed)
    → ((groups : List Text) (m : SynopMessage) → Ends (section groups m))
    → (p : Parsed) → Ends (possibly i name section p)
possibly-Ends i name section h (false, groups, m) = returns _ tt
possibly-Ends i name section h (true, groups, m) = search (ends, h)

begins_section_2-Ends : (groups : List Text) → Ends (begins_section_2 groups)
begins_section_2-Ends [] = returns _ tt
begins_section_2-Ends (s ∷ rest) = search ends

possibly_section_2-Ends : (p : Parsed) → Ends (possibly_section_2 p)
unfolding possibly_section_2
possibly_section_2-Ends (r, groups, m) = search (ends, begins_section_2-Ends, parse_section_2-Ends)

later_sections-Ends : (p : Parsed) → Ends (later_sections p)
unfolding later_sections
later_sections-Ends p = Fine->>= _ _ _ (possibly_section_2-Ends p) (λ p2.
    Fine->>= _ _ _ (possibly-Ends 3 _ _ parse_section_3-Ends p2) (λ p3.
      Fine->>= _ _ _ (possibly-Ends 4 _ _ parse_section_4-Ends p3)
        (possibly-Ends 5 _ _ parse_section_5-Ends)))

after_section_0-Ends : (p : Parsed) → Ends (after_section_0 p)
after_section_0-Ends (false, groups, m) = returns _ tt
after_section_0-Ends (true, groups, m) =
    Fine->>= _ _ _ (parse_section_1-Ends groups (mark 1 m)) later_sections-Ends

parse_words-Ends :
    (parse_time : Text → Option ℤ) (words : List Text) (m : SynopMessage)
    → Ends (parse_words parse_time words m)
unfolding parse_groups
parse_words-Ends parse_time [] m = returns _ tt
parse_words-Ends parse_time (first ∷ rest) m =
    Fine-if _ _ _ _
      (Fine->>= _ _ _ (parse_section_0-Ends parse_time _ (mark 0 m)) after_section_0-Ends)
      (returns _ tt)

outcome_lem :
    (o : Outcome Parsed) → Ends o → ((p : Parsed) × (o ≡ ended p)) ⊎ (o ≡ thrown) ⊎ (o ≡ undefined)
outcome_lem o (returns p h) = inl (p, refl)
outcome_lem o throws = inr (inl refl)
outcome_lem o strays = inr (inr refl)

-- The decoding of a text, from any message, returns, or throws, or comes to a read past the end of a text
-- or of the groups, beyond which nothing is said (a group 902 or 904 at the end of section 3 does): for the
-- loops of sections 3 and 5, which take up to three groups at a time, a fuel of one unit for each
-- group that follows the mark of their section is enough.
pub parse_ends :
    (parse_time : Text → Option ℤ) (text : Text) (m : SynopMessage)
    → ((p : Parsed) × (parse parse_time text m ≡ ended p))
      ⊎ (parse parse_time text m ≡ thrown)
      ⊎ (parse parse_time text m ≡ undefined)
unfolding parse
parse_ends parse_time text m = outcome_lem _ (parse_words-Ends parse_time (words_from [] text) m)
