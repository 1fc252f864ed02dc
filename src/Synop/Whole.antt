-- ===== src/Synop/Whole.antt =====
-- Whole messages, with sections 0, 1 and 3.
use meteodata_server.Base.{
  ℕ, ◌<◌, ◌≤◌, ◌≡◌, ◌⊎◌, ◌∙◌, refl, ap, arith, true, false, ◌||◌, inl, inr, List, [], ◌∷◌, ◌++◌,
  map, Option, some, ltb, ◌==◌, if◌then◌else◌, All,
}
use meteodata_server.Base.Int.{ℤ}
use meteodata_server.Synop.{Text, ended, ◌>>=◌, at, index, all_are}
use meteodata_server.Synop.Message.{SynopMessage, meters_per_second, knots}
use meteodata_server.Synop.Section1.{wind_indicator, parse_section_0, time_read}
use meteodata_server.Synop.Decoder.{mark, possibly_section_2, later_sections, parse_groups}
use meteodata_server.Synop.Digits.{digit}
use meteodata_server.Synop.Items
use meteodata_server.Synop.Report.{Follows, decoded}
use meteodata_server.Synop.Mandatory.{with_first, with_wind, wind_groups, parse_section_1-report}
use meteodata_server.Synop.Extras
use meteodata_server.Synop.Supplement
use meteodata_server.Synop.Supplement.{parse_section_3-report}

-- The indicatives never decrease.
abbrev pub Ordered : ℕ → List Items.Item → Type 0
Ordered last [] = Unit {0}
Ordered last (i ∷ is) = (last ≤ Items.indicative i) × Ordered (Items.indicative i) is

abbrev pub ExtrasOrdered : ℕ → List Extras.Extra → Type 0
ExtrasOrdered last [] = Unit {0}
ExtrasOrdered last (i ∷ is) = (last ≤ Extras.indicative i) × ExtrasOrdered (Extras.indicative i) is

-- The meanings of the items, one after the other.
abbrev pub meanings : List Items.Item → SynopMessage → SynopMessage
meanings [] m = m
meanings (i ∷ is) m = meanings is (Items.meaning i m)

abbrev pub extra_meanings : List Extras.Extra → SynopMessage → SynopMessage
extra_meanings [] m = m
extra_meanings (i ∷ is) m = extra_meanings is (Extras.meaning i m)

not_below : (last c : ℕ) → last ≤ c → ltb c last ≡ false
not_below last c h = ground arith

decoded-Ordered :
    (last : ℕ) (items : List Items.Item) (rest : List Text) (m : SynopMessage)
    → Ordered last items
    → decoded last items rest m ≡ (true, rest, meanings items m)
unfolding decoded
decoded-Ordered last [] rest m h = refl
decoded-Ordered last (i ∷ is) rest m h =
    rw (not_below last (Items.indicative i) h.0)
      (decoded-Ordered (Items.indicative i) is rest (Items.meaning i m) h.1)

extras_decoded-Ordered :
    (last : ℕ) (items : List Extras.Extra) (rest : List Text) (m : SynopMessage)
    → ExtrasOrdered last items
    → Supplement.decoded last items rest m ≡ (true, rest, extra_meanings items m)
unfolding Supplement.decoded
extras_decoded-Ordered last [] rest m h = refl
extras_decoded-Ordered last (i ∷ is) rest m h =
    rw (not_below last (Extras.indicative i) h.0)
      (extras_decoded-Ordered (Extras.indicative i) is rest (Extras.meaning i m) h.1)

-- The indicator of the wind, table 1855.
abbrev pub IsIndicator : ℕ → Type 0
IsIndicator iw = (iw ≡ 0) ⊎ (iw ≡ 1) ⊎ (iw ≡ 3) ⊎ (iw ≡ 4)

abbrev pub with_header : Text → ℤ → ℕ → SynopMessage → SynopMessage
with_header icao time iw m = record m {
  station_icao = icao;
  observation_time = time;
  with_anemometer = (iw == 1) || (iw == 4);
  wind_speed_unit = if ltb iw 3 then meters_per_second else knots;
}

wind_indicator-digit :
    (iw : ℕ) (m : SynopMessage)
    → IsIndicator iw
    → wind_indicator (digit iw) m ≡ record m {
      with_anemometer = (iw == 1) || (iw == 4);
      wind_speed_unit = if ltb iw 3 then meters_per_second else knots;
    }
unfolding digit
wind_indicator-digit iw m (inl e) = rw e refl
wind_indicator-digit iw m (inr (inl e)) = rw e refl
wind_indicator-digit iw m (inr (inr (inl e))) = rw e refl
wind_indicator-digit iw m (inr (inr (inr e))) = rw e refl

-- The digits of the first group of section 1, and what its second group says.
pub record Surface : Type 0 where
  pub rain_indicator : ℕ
  pub operation : ℕ
  pub cloud_base : ℕ
  pub visibility_tens : ℕ
  pub visibility_units : ℕ
  pub cover : ℕ
  pub direction : ℕ
  pub speed : ℕ

abbrev pub section_1 : Surface → List Items.Item → List Text → List Text
section_1 s items rest =
    map digit
      (s.rain_indicator ∷ s.operation ∷ s.cloud_base ∷ s.visibility_tens ∷ s.visibility_units ∷ [])
    ∷ wind_groups s.cover s.direction s.speed (map Items.group items ++ rest)

abbrev pub with_surface : Surface → SynopMessage → SynopMessage
with_surface s m = with_wind s.cover s.direction s.speed (with_first s.operation s.cloud_base m)

module _ (parse_time : Text → Option ℤ) (station stamp : Text) (a b c d iw : ℕ) (icao : Text)
    (time : ℤ) (known : parse_time stamp ≡ some time) (indicates : IsIndicator iw) where
  abbrev pub message : List Text → List Text
  message rest =
      station
      ∷ stamp
      ∷ (b'A' ∷ b'A' ∷ b'X' ∷ b'X' ∷ [])
      ∷ (a ∷ b ∷ c ∷ d ∷ digit iw ∷ [])
      ∷ icao
      ∷ rest

  parse_section_0-header :
      (rest : List Text) (m : SynopMessage)
      → parse_section_0 parse_time (message rest) m ≡ ended (true, rest, with_header icao time iw m)
  unfolding parse_section_0 at
  parse_section_0-header rest m =
      let located = λ (m' : SynopMessage). record m' { station_icao = icao } in
      ap (λ o. ended (true, rest, located (wind_indicator (digit iw) (time_read o m)))) known
      ∙ ap (λ m'. ended (true, rest, located m'))
          (wind_indicator-digit iw (time_read (some time) m) indicates)

  module _ (s : Surface) (items : List Items.Item) (m : SynopMessage) (operates : s.operation < 10)
      (based : s.cloud_base < 10) (fits : All Items.Fits items) (ordered : Ordered b'0' items) where
    -- The message after section 1.
    abbrev pub surface_read : SynopMessage
    surface_read = meanings items (with_surface s (mark 1 (with_header icao time iw (mark 0 m))))

    parse_groups-surface :
        (rest : List Text)
        → Follows rest
        → parse_groups parse_time (message (section_1 s items rest)) m
          ≡ later_sections (true, rest, surface_read)
    unfolding parse_groups
    parse_groups-surface rest follows =
        let m1 : SynopMessage = mark 1 (with_header icao time iw (mark 0 m)) in
        rw (parse_section_0-header (section_1 s items rest) (mark 0 m)) (
          ap (λ o. o >>= later_sections)
            (parse_section_1-report s.rain_indicator s.operation s.cloud_base s.visibility_tens
              s.visibility_units s.cover s.direction s.speed items rest m1 operates based fits
              follows)
          ∙ ap later_sections (decoded-Ordered b'0' items rest (with_surface s m1) ordered))

    pub parse_groups-report :
        (extras : List Extras.Extra)
        → All Extras.Fits extras
        → ExtrasOrdered b'0' extras
        → parse_groups parse_time
            (message (section_1 s items ((b'3' ∷ b'3' ∷ b'3' ∷ []) ∷ Extras.groups extras [])))
            m
          ≡ ended (true, [], extra_meanings extras (mark 3 surface_read))
    unfolding later_sections possibly_section_2 all_are index
    parse_groups-report extras extras_fit extras_ordered =
        parse_groups-surface ((b'3' ∷ b'3' ∷ b'3' ∷ []) ∷ Extras.groups extras []) refl
        ∙ rw
            (
              parse_section_3-report extras [] (mark 3 surface_read) extras_fit tt,
              extras_decoded-Ordered b'0' extras [] (mark 3 surface_read) extras_ordered,
            )
            refl

    -- A section 2 hides all that follows it: the message is accepted, with what sections 0 and 1 say, and
    -- neither section 2 nor the later ones are marked or read.
    pub section_2_hides :
        (t : Text) (after : List Text)
        → let marked : Text = b'2' ∷ b'2' ∷ b'2' ∷ t in
          parse_groups parse_time (message (section_1 s items (marked ∷ after))) m
          ≡ ended (true, marked ∷ after, surface_read)
    unfolding later_sections possibly_section_2 all_are index
    section_2_hides t after = parse_groups-surface ((b'2' ∷ b'2' ∷ b'2' ∷ t) ∷ after) refl ∙ refl
