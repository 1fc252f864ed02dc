-- ===== src/Synop/Mandatory.antt =====
-- Section 1 with its two mandatory groups.
use meteodata_server.Base.{
  ℕ, zero, suc, ◌+◌, ◌*◌, ◌/◌, ◌%◌, ◌<◌, ◌≡◌, ◌∙◌, refl, arith, true, false, Bool-cases, inl, inr,
  List, [], ◌∷◌, ◌++◌, map, Option, none, some, ltb, ◌==◌, if◌then◌else◌, All, get_or,
}
use meteodata_server.Base.Int.{pos, ◌*ℤ◌}
use meteodata_server.Synop.{Text, ended, at, index, none_at, parse_int, parse_int_until}
use meteodata_server.Synop.Message.{
  SynopMessage, Range, PhenomenaObservationsAvailable, basic_observations, advanced_observations,
  no_phenomenon, not_observed,
}
use meteodata_server.Synop.Groups.{h_of, visibility_of}
use meteodata_server.Synop.Section1.{
  first_group, phenomena_of, second_group, wind_speed, is_99, parse_section_1, optional_groups,
}
use meteodata_server.Synop.Digits.{digit, digit-ne_slash, digits_2, digits_3, read_2, read_3}
use meteodata_server.Synop.Items.{Item, group, Fits}
use meteodata_server.Synop.Report.{Follows, decoded, optional_groups-group}

-- The base of the lowest cloud, in metres, table 1600.
abbrev thresholds : List ℕ
thresholds = 0 ∷ 50 ∷ 100 ∷ 200 ∷ 300 ∷ 600 ∷ 1000 ∷ 1500 ∷ 2000 ∷ 2500 ∷ []

abbrev pub cloud_base : ℕ → Range
cloud_base h = record {
  begin = some (pos (get_or thresholds h 0));
  end = if h == 9 then none else some (pos (get_or thresholds (suc h) 0));
  begin_included = true;
  end_included = false;
}

-- Table 1860; a code out of the table says nothing.
abbrev pub phenomena : ℕ → PhenomenaObservationsAvailable → PhenomenaObservationsAvailable
phenomena ix before =
    get_or
      (before ∷ advanced_observations ∷ no_phenomenon ∷ not_observed ∷ advanced_observations
        ∷ no_phenomenon ∷ not_observed ∷ basic_observations ∷ [])
      ix before

h_of-digit : (h : ℕ) (before : Option Range) → h < 10 → h_of (digit h) before ≡ some (cloud_base h)
unfolding digit
h_of-digit zero before lt = refl
h_of-digit (suc zero) before lt = refl
h_of-digit (suc (suc zero)) before lt = refl
h_of-digit (suc (suc (suc zero))) before lt = refl
h_of-digit (suc (suc (suc (suc zero)))) before lt = refl
h_of-digit (suc (suc (suc (suc (suc zero))))) before lt = refl
h_of-digit (suc (suc (suc (suc (suc (suc zero)))))) before lt = refl
h_of-digit (suc (suc (suc (suc (suc (suc (suc zero))))))) before lt = refl
h_of-digit (suc (suc (suc (suc (suc (suc (suc (suc zero)))))))) before lt = refl
h_of-digit (suc (suc (suc (suc (suc (suc (suc (suc (suc zero))))))))) before lt = refl
h_of-digit (suc (suc (suc (suc (suc (suc (suc (suc (suc (suc n)))))))))) before lt =
    absurd (omega arith)

phenomena_of-digit :
    (ix : ℕ) (before : PhenomenaObservationsAvailable)
    → ix < 10
    → phenomena_of (digit ix) before ≡ phenomena ix before
unfolding digit
phenomena_of-digit zero before lt = refl
phenomena_of-digit (suc zero) before lt = refl
phenomena_of-digit (suc (suc zero)) before lt = refl
phenomena_of-digit (suc (suc (suc zero))) before lt = refl
phenomena_of-digit (suc (suc (suc (suc zero)))) before lt = refl
phenomena_of-digit (suc (suc (suc (suc (suc zero))))) before lt = refl
phenomena_of-digit (suc (suc (suc (suc (suc (suc zero)))))) before lt = refl
phenomena_of-digit (suc (suc (suc (suc (suc (suc (suc zero))))))) before lt = refl
phenomena_of-digit (suc (suc (suc (suc (suc (suc (suc (suc zero)))))))) before lt = refl
phenomena_of-digit (suc (suc (suc (suc (suc (suc (suc (suc (suc zero))))))))) before lt = refl
phenomena_of-digit (suc (suc (suc (suc (suc (suc (suc (suc (suc (suc n)))))))))) before lt =
    absurd (omega arith)

-- The two characters of the visibility make a number above all those of the table.
visibility_of-digit :
    (v w : ℕ) (before : Option Range) → visibility_of (digit v * 10 + digit w) before ≡ before
unfolding visibility_of digit
visibility_of-digit v w before = ground arith

digit-not_small : (d : ℕ) → ltb (digit d) 4 ≡ false
unfolding digit
digit-not_small d = ground arith

none_at-digits :
    (x y z v w : ℕ) → none_at b'/' (x ∷ y ∷ z ∷ digit v ∷ digit w ∷ []) (3 ∷ 4 ∷ []) ≡ ended true
unfolding none_at at
none_at-digits x y z v w = rw (digit-ne_slash v, digit-ne_slash w) refl

-- What the first group is read as.
abbrev pub with_first : ℕ → ℕ → SynopMessage → SynopMessage
with_first ix h m = record m {
  manned = false;
  phenomena = phenomena ix m.phenomena;
  h_base_lowest_cloud = some (cloud_base h);
}

first_group-digits :
    (x ix h v w : ℕ) (m : SynopMessage)
    → ix < 10
    → h < 10
    → first_group (map digit (x ∷ ix ∷ h ∷ v ∷ w ∷ [])) m ≡ ended (with_first ix h m)
unfolding first_group at index
first_group-digits x ix h v w m hi hh =
    rw
      (
        none_at-digits (digit x) (digit ix) (digit h) v w,
        h_of-digit h m.h_base_lowest_cloud hh,
        phenomena_of-digit ix m.phenomena hi,
        visibility_of-digit v w m.horiz_visibility,
        digit-not_small ix,
      )
      refl

-- The groups of the wind: from 99 on, the speed has a group of its own.
abbrev pub wind_groups : ℕ → ℕ → ℕ → List Text → List Text
wind_groups n dd speed rest =
    if ltb speed 99
    then map digit (n ∷ digits_2 dd ++ digits_2 speed) ∷ rest
    else map digit (n ∷ digits_2 dd ++ (9 ∷ 9 ∷ [])) ∷ map digit (0 ∷ 0 ∷ digits_3 speed) ∷ rest

abbrev pub with_wind : ℕ → ℕ → ℕ → SynopMessage → SynopMessage
with_wind n dd speed m = record m {
  cloud_cover = some (digit n);
  mean_wind_direction = some (pos (dd * 10));
  mean_wind_speed = some (pos speed);
}

tens : (dd : ℕ) → pos dd *ℤ pos 10 ≡ pos (dd * 10)
unfolding ◌*ℤ◌
tens dd = ground arith

not_99 : (speed : ℕ) → ltb speed 99 ≡ true → is_99 (pos speed) ≡ false
not_99 speed h = ground arith

-- Where the speed is known, the optional groups come next.
wind_speed-small :
    (speed : ℕ) (more : List Text) (m : SynopMessage)
    → ltb speed 99 ≡ true
    → wind_speed (some (pos speed)) more m
      ≡ optional_groups b'0' more (record m { mean_wind_speed = some (pos speed) })
wind_speed-small speed [] m h = rw (not_99 speed h) refl
wind_speed-small speed (s ∷ rest) m h = rw (not_99 speed h) refl

digit_0 : digit 0 ≡ b'0'
unfolding digit
digit_0 = refl

known_speed :
    (d e f : ℕ)
    → none_at b'/' (digit 0 ∷ digit 0 ∷ digit d ∷ digit e ∷ digit f ∷ []) (2 ∷ 3 ∷ 4 ∷ [])
      ≡ ended true
unfolding none_at at
known_speed d e f = rw (digit-ne_slash d, digit-ne_slash e, digit-ne_slash f) refl

wind_speed-large :
    (speed : ℕ) (more : List Text) (m : SynopMessage)
    → wind_speed (some (pos 99)) (map digit (0 ∷ 0 ∷ digits_3 speed) ∷ more) m
      ≡ optional_groups b'0' more (record m { mean_wind_speed = some (pos speed) })
unfolding at parse_int
wind_speed-large speed more m =
    rw (known_speed (speed / 100) (speed / 10 % 10) (speed % 10), digit_0, read_3 speed) refl

second_group-wind :
    (n dd speed : ℕ) (more : List Text) (m : SynopMessage)
    → second_group (wind_groups n dd speed more) m
      ≡ optional_groups b'0' more (with_wind n dd speed m)
unfolding at parse_int parse_int_until
second_group-wind n dd speed more m = elim (Bool-cases (ltb speed 99)) [
  | inl small ↦ rw (small, read_2 dd, read_2 speed, tens dd) (wind_speed-small speed more _ small)
  | inr large ↦ rw (large, read_2 dd, read_2 99, tens dd) (wind_speed-large speed more _)
]

-- Section 1 of a message in the format: the base of the lowest cloud, the phenomena available, the cloud
-- cover and the wind, of any speed, are decoded, then the optional groups by what their items mean, up to
-- the first one out of the order of the indicatives, at which the section fails; but the station is never
-- manned, and the horizontal visibility is left as it was, whatever its code.
pub parse_section_1-report :
    (x ix h v w n dd speed : ℕ) (items : List Item) (rest : List Text) (m : SynopMessage)
    → ix < 10
    → h < 10
    → All Fits items
    → Follows rest
    → parse_section_1
        (map digit (x ∷ ix ∷ h ∷ v ∷ w ∷ []) ∷ wind_groups n dd speed (map group items ++ rest))
        m
      ≡ ended (decoded b'0' items rest (with_wind n dd speed (with_first ix h m)))
unfolding parse_section_1
parse_section_1-report x ix h v w n dd speed items rest m hi hh fits follows =
    rw (first_group-digits x ix h v w m hi hh) (
      second_group-wind n dd speed (map group items ++ rest) (with_first ix h m)
      ∙ optional_groups-group b'0' items rest _ fits follows)
