-- ===== src/Synop/Report.antt =====
-- Section 1 decodes its optional groups as the format says.
use meteodata_server.Base.{
  ℕ, zero, suc, ◌%◌, ◌<◌, ◌≤◌, ◌/◌, ◌≡◌, ◌⊎◌, inl, inr, refl, ap, arith, Bool, true, false, not,
  ◌&&◌, List, [], ◌∷◌, ◌++◌, map, some, ltb, ◌==◌, if◌then◌else◌, All, Bool-cases,
}
use meteodata_server.Base.Int.{pos, ◌+ℤ◌, ◌-ℤ◌, ◌*ℤ◌}
use meteodata_server.Synop.{Text, ended, index, any_is, parse_int, parse_int_until, parse_sint}
use meteodata_server.Synop.Message.{SynopMessage}
use meteodata_server.Synop.Groups.{parse_rain, amount_of, duration_of}
use meteodata_server.Synop.Section1.{
  Parsed, ends_section, full_pressure, read_group, optional_groups,
}
use meteodata_server.Synop.Digits.{
  digit, digit-ne_slash, digits_3, digits_4, read_3, read_4, sign, signed, signed_by-sign,
  any_is-none,
}
use meteodata_server.Synop.Items.{
  Item, Amount, millimetres, trace, tenths, amount_code, AmountFits, hours, precipitation_of,
  temperature, dew_point, humidity, station_pressure, sea_pressure, isobaric_surface, tendency,
  rain, weather, cloud_cover, hour, not_known, indicative, group, Fits, meaning,
}

pub sign-ne_slash : (negative : Bool) → (sign negative == b'/') ≡ false
sign-ne_slash true = refl
sign-ne_slash false = refl

-- A signed number of three digits.
pub parse_sint-signed :
    (x : ℕ) (negative : Bool) (n : ℕ)
    → parse_sint (x ∷ sign negative ∷ map digit (digits_3 n)) 1 ≡ ended (some (signed negative n))
unfolding parse_sint parse_int index
parse_sint-signed x negative n =
    rw (sign-ne_slash negative, read_3 n) (ap ended (signed_by-sign negative n))

full_pressure_lem :
    (n : ℕ) → 5000 ≤ n → n < 15000 → full_pressure (some (pos (n % 10000))) ≡ some (pos n)
unfolding ◌+ℤ◌
full_pressure_lem n low high = ground arith

amount_of_lem :
    (amount : Amount) (code : ℕ)
    → AmountFits amount
    → amount_of (pos (hours code)) (pos (amount_code amount)) ≡ precipitation_of amount code
unfolding ◌*ℤ◌ ◌-ℤ◌
amount_of_lem (millimetres n) code h = ground arith
amount_of_lem trace code h = refl
amount_of_lem (tenths t) code h = ground arith

duration_of-digit : (code : ℕ) → code < 10 → duration_of (digit code) ≡ pos (hours code)
unfolding digit
duration_of-digit zero h = refl
duration_of-digit (suc zero) h = refl
duration_of-digit (suc (suc zero)) h = refl
duration_of-digit (suc (suc (suc zero))) h = refl
duration_of-digit (suc (suc (suc (suc zero)))) h = refl
duration_of-digit (suc (suc (suc (suc (suc zero))))) h = refl
duration_of-digit (suc (suc (suc (suc (suc (suc zero)))))) h = refl
duration_of-digit (suc (suc (suc (suc (suc (suc (suc zero))))))) h = refl
duration_of-digit (suc (suc (suc (suc (suc (suc (suc (suc zero)))))))) h = refl
duration_of-digit (suc (suc (suc (suc (suc (suc (suc (suc (suc zero))))))))) h = refl
duration_of-digit (suc (suc (suc (suc (suc (suc (suc (suc (suc (suc n)))))))))) h =
    absurd (omega arith)

pub parse_rain-rain :
    (amount : Amount) (code : ℕ)
    → AmountFits amount
    → code < 10
    → parse_rain (group (rain amount code)) ≡ ended (some (precipitation_of amount code))
unfolding parse_rain parse_int_until index
parse_rain-rain amount code fits h =
    rw (read_3 (amount_code amount), duration_of-digit code h, amount_of_lem amount code fits) refl

any_digits :
    (x p q r s : ℕ)
    → any_is b'/' (x ∷ map digit (p ∷ q ∷ r ∷ s ∷ [])) (1 ∷ 2 ∷ 3 ∷ 4 ∷ []) ≡ ended false
any_digits x p q r s =
    any_is-none x _ _ _ _ (digit-ne_slash p) (digit-ne_slash q) (digit-ne_slash r)
      (digit-ne_slash s)

any_4 : (x n : ℕ) → any_is b'/' (x ∷ map digit (digits_4 n)) (1 ∷ 2 ∷ 3 ∷ 4 ∷ []) ≡ ended false
any_4 x n = any_digits x _ _ _ _

any_3 :
    (x y n : ℕ)
    → (y == b'/') ≡ false
    → any_is b'/' (x ∷ y ∷ map digit (digits_3 n)) (1 ∷ 2 ∷ 3 ∷ 4 ∷ []) ≡ ended false
any_3 x y n h = any_is-none x _ _ _ _ h (digit-ne_slash _) (digit-ne_slash _) (digit-ne_slash _)

any_signed :
    (x : ℕ) (negative : Bool) (n : ℕ)
    → any_is b'/' (x ∷ sign negative ∷ map digit (digits_3 n)) (1 ∷ 2 ∷ 3 ∷ 4 ∷ []) ≡ ended false
any_signed x negative n = any_3 x (sign negative) n (sign-ne_slash negative)

abbrev is_surface : ℕ → Bool
is_surface c = not (c == b'0') && not (c == b'9')

sea_not_surface : (n : ℕ) → 9000 ≤ n → n < 11000 → is_surface (digit (n % 10000 / 1000)) ≡ false
unfolding digit
sea_not_surface n low high = ground arith

digit-is_surface : (d : ℕ) → 1 ≤ d → d < 9 → is_surface (digit d) ≡ true
unfolding digit
digit-is_surface d low high = ground arith

any_is-some :
    (x p q r s : ℕ)
    → (p ≡ b'/') ⊎ (q ≡ b'/') ⊎ (r ≡ b'/') ⊎ (s ≡ b'/')
    → any_is b'/' (x ∷ p ∷ q ∷ r ∷ s ∷ []) (1 ∷ 2 ∷ 3 ∷ 4 ∷ []) ≡ ended true
unfolding any_is index
any_is-some x p q r s h = ground arith

-- A group is read as its item means.
read_group-group :
    (i : Item) (m : SynopMessage)
    → Fits i
    → read_group (group i) (indicative i) m ≡ ended (meaning i m)
unfolding read_group parse_int index
read_group-group (temperature negative n) m h =
    rw (any_signed b'1' negative n, parse_sint-signed b'1' negative n) refl
read_group-group (dew_point true n) m h =
    rw (any_signed b'2' true n, parse_sint-signed b'2' true n) refl
read_group-group (dew_point false n) m h =
    rw (any_signed b'2' false n, parse_sint-signed b'2' false n) refl
read_group-group (humidity n) m h = rw (any_3 b'2' b'9' n refl, read_3 n) refl
read_group-group (station_pressure n) m h =
    rw (any_4 b'3' (n % 10000), read_4 (n % 10000), full_pressure_lem n h.0 h.1) refl
read_group-group (sea_pressure n) m h =
    rw
      (
        any_4 b'4' (n % 10000),
        sea_not_surface n h.0 h.1,
        read_4 (n % 10000),
        full_pressure_lem n (omega arith) (omega arith),
      )
      refl
read_group-group (isobaric_surface surface n) m h =
    rw
      (
        any_3 b'4' (digit surface) n (digit-ne_slash surface),
        digit-is_surface surface h.0 h.1,
        read_3 n,
      )
      refl
read_group-group (tendency a n) m h = rw (any_3 b'5' (digit a) n (digit-ne_slash a), read_3 n) refl
read_group-group (rain amount code) m h =
    rw (any_digits b'6' _ _ _ _, parse_rain-rain amount code h.0 h.1) refl
read_group-group (weather n) m h = rw (any_4 b'7' n) refl
read_group-group (cloud_cover n l k c) m h = rw (any_digits b'8' n l k c) refl
read_group-group (hour n) m h = rw (any_4 b'9' n) refl
read_group-group (not_known c p q r s) m h = rw (any_is-some c p q r s h.0) refl

-- No item is taken for the end of the section.
ends_section-group : (i : Item) → Fits i → ends_section (group i) ≡ false
ends_section-group (temperature negative n) h = refl
ends_section-group (dew_point true n) h = refl
ends_section-group (dew_point false n) h = refl
ends_section-group (not_known c p q r s) h = ground arith
ends_section-group i h = refl

-- The groups that may follow section 1: none, or one that is the mark of a section.
abbrev pub Follows : List Text → Type 0
Follows [] = Unit {0}
Follows (s ∷ rest) = ends_section s ≡ true

-- A decoder of the format: the items in the order of their indicatives mean what they say; at the first
-- one out of order it fails, and keeps what it has read.
unfoldable pub decoded : ℕ → List Item → List Text → SynopMessage → Parsed
decoded last [] rest m = (true, rest, m)
decoded last (i ∷ is) rest m =
    let later = decoded (indicative i) is rest (meaning i m) in
    if ltb (indicative i) last then (false, group i ∷ map group is ++ rest, m) else later

optional_groups-end :
    (last : ℕ) (rest : List Text) (m : SynopMessage)
    → Follows rest
    → optional_groups last rest m ≡ ended (true, rest, m)
unfolding optional_groups
optional_groups-end last [] m h = refl
optional_groups-end last (s ∷ rest) m h = rw h refl

pub optional_groups-group :
    (last : ℕ) (items : List Item) (rest : List Text) (m : SynopMessage)
    → All Fits items
    → Follows rest
    → optional_groups last (map group items ++ rest) m ≡ ended (decoded last items rest m)
unfolding optional_groups decoded index
optional_groups-group last [] rest m fits h = optional_groups-end last rest m h
optional_groups-group last (i ∷ is) rest m fits h =
    rw (ends_section-group i fits.0) (elim (Bool-cases (ltb (indicative i) last)) [
      | inl out_of_order ↦ rw out_of_order refl
      | inr in_order ↦
          rw (in_order, read_group-group i m fits.0)
            (optional_groups-group (indicative i) is rest (meaning i m) fits.1 h)
    ])
