-- ===== src/Synop/Supplement.antt =====
-- Section 3 decodes its groups as the format says, but for the depth of snow and the net radiation of the
-- last hour.
use meteodata_server.Base.{
  ℕ, zero, suc, ◌/◌, ◌%◌, ◌≤◌, ◌<◌, ◌≡◌, refl, ap, arith, Bool, true, false, not, Bool-cases, inl,
  inr, List, [], ◌∷◌, map, some, ltb, ◌==◌, if◌then◌else◌, All, length,
}
use meteodata_server.Base.Int.{pos, ltb_ℤ}
use meteodata_server.Synop.{Text, ended, index, all_are, parse_int, parse_sint}
use meteodata_server.Synop.Message.{SynopMessage}
use meteodata_server.Synop.Section1.{Parsed, ends_section}
use meteodata_server.Synop.Sunshine.{next, group_5}
use meteodata_server.Synop.Gusts.{timed_gust, group_9}
use meteodata_server.Synop.Section3.{group_3, groups_3, parse_section_3}
use meteodata_server.Synop.Digits.{
  digit, digits_2, digits_3, read_2, read_3, read_4, sign, signed, signed_by-sign,
}
use meteodata_server.Synop.Report.{Follows, parse_sint-signed, parse_rain-rain, sign-ne_slash}
use meteodata_server.Synop.Extras
use meteodata_server.Synop.Fields.{
  height_of-layer, sixfold, radiation_24, radiation_hour, not_hour, not_announced,
}

group_5-day :
    (n : ℕ) (r : Extras.Radiation) (more : List Text) (m : SynopMessage)
    → n < 300
    → group_5 (Extras.first_group (Extras.sunny_day n r)) (Extras.radiation_group r ∷ more) m
      ≡ ended (next more (Extras.meaning (Extras.sunny_day n r) m))
unfolding group_5 index parse_int
group_5-day n r more m h =
    rw
      (
        not_announced n 0 h,
        not_announced n 1 h,
        not_hour n h,
        radiation_24 r m.last_24_hours,
        read_3 n,
        sixfold n,
      )
      refl

group_5-hour :
    (n : ℕ) (r : Extras.Radiation) (more : List Text) (m : SynopMessage)
    → group_5 (Extras.first_group (Extras.sunny_hour n r)) (Extras.radiation_group r ∷ more) m
      ≡ ended (next more (Extras.meaning (Extras.sunny_hour n r) m))
unfolding group_5 index parse_int
group_5-hour n r more m = rw (radiation_hour r m.last_hour, read_2 n, sixfold n) refl

-- A speed below 99 is not taken for the mark of a longer one.
short_gust :
    (n : ℕ)
    → ltb n 99 ≡ true
    → all_are (b'9' ∷ b'1' ∷ b'1' ∷ map digit (digits_2 n)) ((3, b'9') ∷ (4, b'9') ∷ [])
      ≡ ended false
unfolding digit all_are index
short_gust n h = ground arith

highest :
    (d e : ℕ) → all_are (b'9' ∷ b'1' ∷ b'1' ∷ d ∷ e ∷ []) ((1, b'1') ∷ (2, b'1') ∷ []) ≡ ended true
unfolding all_are index
highest d e = refl

long_mark :
    all_are (b'9' ∷ b'1' ∷ b'1' ∷ b'9' ∷ b'9' ∷ []) ((3, b'9') ∷ (4, b'9') ∷ []) ≡ ended true
unfolding all_are index
long_mark = refl

zeros : (s : Text) → all_are (b'0' ∷ b'0' ∷ s) ((0, b'0') ∷ (1, b'0') ∷ []) ≡ ended true
unfolding all_are index
zeros s = refl

parse_sint_2 :
    (x y : ℕ) (negative : Bool) (n : ℕ)
    → parse_sint (x ∷ y ∷ sign negative ∷ map digit (digits_2 n)) 2
      ≡ ended (some (signed negative n))
unfolding parse_sint parse_int index
parse_sint_2 x y negative n =
    rw (sign-ne_slash negative, read_2 n) (ap ended (signed_by-sign negative n))

all_24 : (n : ℕ) → n < 10000 → ltb_ℤ (pos n) (pos 9999) ≡ not (n == 9999)
all_24 n h = ground arith

group_3-rain_24 :
    (n : ℕ) (more : List Text) (m : SynopMessage)
    → n < 10000
    → group_3 (Extras.first_group (Extras.rain_24 n)) b'7' more m
      ≡ ended (next more (Extras.meaning (Extras.rain_24 n) m))
unfolding group_3 parse_int
group_3-rain_24 n more m h = elim (Bool-cases (n == 9999)) [
  | inl trace ↦ rw (read_4 n, all_24 n h, trace) refl
  | inr amount ↦ rw (read_4 n, all_24 n h, amount) refl
]

group_9-gust_10 :
    (n : ℕ) (more : List Text) (m : SynopMessage)
    → group_9 (Extras.first_group (Extras.gust_10 n)) more m
      ≡ ended (next more (Extras.meaning (Extras.gust_10 n) m))
unfolding group_9 index parse_int
group_9-gust_10 n more m = rw (read_2 n) refl

in_hour : (d : ℕ) → d ≤ 60 → ltb_ℤ (pos d) (pos 61) ≡ true
in_hour d h = ground arith

group_9-gust_over :
    (d n : ℕ) (more : List Text) (m : SynopMessage)
    → d ≤ 60
    → group_9
        (Extras.first_group (Extras.gust_over d n))
        (Extras.following (Extras.gust_over d n) more)
        m
      ≡ ended (next more (Extras.meaning (Extras.gust_over d n) m))
unfolding group_9 timed_gust index parse_int
group_9-gust_over d n more m h = elim (Bool-cases (ltb n 99)) [
  | inl short ↦
      rw
        (
          short,
          read_2 d,
          in_hour d h,
          highest (digit (n / 10)) (digit (n % 10)),
          short_gust n short,
          read_2 n,
          sixfold d,
        )
        refl
  | inr long ↦
      rw
        (
          long,
          read_2 d,
          in_hour d h,
          highest b'9' b'9',
          long_mark,
          zeros (map digit (digits_3 n)),
          read_3 n,
          sixfold d,
        )
        refl
]

group_3-first_group :
    (i : Extras.Extra) (more : List Text) (m : SynopMessage)
    → Extras.Fits i
    → group_3 (Extras.first_group i) (Extras.indicative i) (Extras.following i more) m
      ≡ ended (next more (Extras.meaning i m))
unfolding group_3 index parse_int
group_3-first_group (Extras.max_temperature negative n) more m h =
    rw (parse_sint-signed b'1' negative n) refl
group_3-first_group (Extras.min_temperature negative n) more m h =
    rw (parse_sint-signed b'2' negative n) refl
group_3-first_group (Extras.bare_ground e negative n) more m h =
    rw (parse_sint_2 b'3' (digit e) negative n) refl
group_3-first_group (Extras.snowy_ground e n) more m h = refl
group_3-first_group (Extras.sunny_day n r) more m h = group_5-day n r more m h.0
group_3-first_group (Extras.sunny_hour n r) more m h = group_5-hour n r more m
group_3-first_group (Extras.rain amount code) more m h =
    rw (parse_rain-rain amount code h.0 h.1) refl
group_3-first_group (Extras.rain_24 n) more m h = group_3-rain_24 n more m h
group_3-first_group (Extras.cloud_layer n c k) more m h =
    rw (read_2 k, height_of-layer k h.2 h.3) refl
group_3-first_group (Extras.gust_10 n) more m h = group_9-gust_10 n more m
group_3-first_group (Extras.gust_over d n) more m h = group_9-gust_over d n more m h.0

-- The items of a section in the order of their indicatives mean what they say; at the first one out of
-- order the section fails, and keeps what it has read.
unfoldable pub decoded : ℕ → List Extras.Extra → List Text → SynopMessage → Parsed
decoded last [] rest m = (true, rest, m)
decoded last (i ∷ is) rest m =
    let later = decoded (Extras.indicative i) is rest (Extras.meaning i m) in
    if ltb (Extras.indicative i) last then (false, Extras.groups (i ∷ is) rest, m) else later

ends_section-first_group : (i : Extras.Extra) → ends_section (Extras.first_group i) ≡ false
ends_section-first_group (Extras.min_temperature true n) = refl
ends_section-first_group (Extras.min_temperature false n) = refl
ends_section-first_group i = refl

length-following :
    (i : Extras.Extra) (more : List Text) → length more ≤ length (Extras.following i more)
length-following (Extras.sunny_day n r) more = omega arith
length-following (Extras.sunny_hour n r) more = omega arith
length-following (Extras.gust_over d n) more = ground arith
length-following i more = omega arith

groups_3-groups :
    (fuel last : ℕ) (items : List Extras.Extra) (rest : List Text) (m : SynopMessage)
    → length (Extras.groups items rest) ≤ fuel
    → All Extras.Fits items
    → Follows rest
    → groups_3 fuel last (Extras.groups items rest) m ≡ ended (decoded last items rest m)
unfolding groups_3 decoded index
groups_3-groups fuel last [] [] m enough fits h = refl
groups_3-groups zero last [] (s ∷ rest) m enough fits h = absurd (omega arith)
groups_3-groups (suc fuel) last [] (s ∷ rest) m enough fits h = rw h refl
groups_3-groups zero last (i ∷ is) rest m enough fits h = absurd (omega arith)
groups_3-groups (suc fuel) last (i ∷ is) rest m enough fits h =
    rw (ends_section-first_group i) (elim (Bool-cases (ltb (Extras.indicative i) last)) [
      | inl out_of_order ↦ rw out_of_order refl
      | inr in_order ↦
          rw (in_order, group_3-first_group i (Extras.groups is rest) m fits.0)
            (groups_3-groups fuel (Extras.indicative i) is rest (Extras.meaning i m)
              (omega (arith, length-following i (Extras.groups is rest))) fits.1 h)
    ])

pub parse_section_3-report :
    (items : List Extras.Extra) (rest : List Text) (m : SynopMessage)
    → All Extras.Fits items
    → Follows rest
    → parse_section_3 ((b'3' ∷ b'3' ∷ b'3' ∷ []) ∷ Extras.groups items rest) m
      ≡ ended (decoded b'0' items rest m)
unfolding parse_section_3
parse_section_3-report items rest m fits h =
    groups_3-groups _ b'0' items rest m (omega arith) fits h
