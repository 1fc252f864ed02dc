-- ===== src/Synop/Fields.antt =====
-- The fields of the groups of section 3: heights, radiations and durations of sunshine.
use meteodata_server.Base.{
  ℕ, ◌+◌, ◌*◌, ◌/◌, ◌%◌, ◌≤◌, ◌<◌, ◌≡◌, ◌∙◌, refl, ap, arith, true, false, Bool-cases, inl, inr, [],
  ◌∷◌, map, some, ◌==◌,
}
use meteodata_server.Base.Int.{pos, ◌*ℤ◌, ◌-ℤ◌, ltb_ℤ}
use meteodata_server.Synop.{ended, at, index, parse_int, parse_sint}
use meteodata_server.Synop.Message.{Radiations}
use meteodata_server.Synop.Groups.{height_of}
use meteodata_server.Synop.Sunshine.{radiation}
use meteodata_server.Synop.Digits.{
  digit, digit-ne_slash, digits_4, read_4, signed, negated, signed_by-digit, read_digits-digit,
  read,
}
use meteodata_server.Synop.Extras

pub height_of-layer : (h : ℕ) → 1 ≤ h → h < 89 → height_of (pos h) ≡ ended (Extras.layer_read h)
unfolding height_of ◌*ℤ◌ ◌-ℤ◌
height_of-layer h low high = elim (Bool-cases (ltb_ℤ (pos h) (pos 51))) [
  | inl small ↦ rw small (ground arith)
  | inr large ↦ elim (Bool-cases (ltb_ℤ (pos h) (pos 81))) [
    | inl small ↦ rw (large, small) (ground arith)
    | inr larger ↦ elim (Bool-cases (ltb_ℤ (pos h) (pos 89))) [
      | inl small ↦ rw (large, larger, small) (ground arith)
      | inr largest ↦ absurd (ground arith)
    ]
  ]
]

pub sixfold : (n : ℕ) → pos n *ℤ pos 6 ≡ pos (n * 6)
unfolding ◌*ℤ◌
sixfold n = ground arith

-- A group of radiation, read with the sign at its first place and at its second.
pub radiation_24 :
    (r : Extras.Radiation) (before : Radiations)
    → radiation (Extras.radiation_group r) 0 before
      ≡ ended (Extras.irradiated r (Extras.net_24 r) before)
unfolding at index parse_int parse_sint
radiation_24 (Extras.net true n) before = rw (read_4 n, negated n) refl
radiation_24 (Extras.net false n) before = rw (read_4 n) refl
radiation_24 (Extras.global n) before = rw (read_4 n) refl
radiation_24 (Extras.diffused n) before = rw (read_4 n) refl
radiation_24 (Extras.downward n) before = rw (read_4 n) refl
radiation_24 (Extras.upward n) before = rw (read_4 n) refl
radiation_24 (Extras.short n) before = rw (read_4 n) refl

last_three : (n : ℕ) → read (n / 100 % 10 ∷ n / 10 % 10 ∷ n % 10 ∷ []) ≡ some (pos (n % 1000))
last_three n =
    read_digits-digit (n / 100 % 10 ∷ n / 10 % 10 ∷ n % 10 ∷ []) 0
    ∙ ap (λ k. some (pos k)) (omega arith)

-- The first digit of the net radiation is taken for its sign.
net_digits :
    (x n : ℕ)
    → parse_sint (x ∷ map digit (digits_4 n)) 1 ≡ ended (some (signed (n / 1000 == 1) (n % 1000)))
unfolding parse_sint parse_int index
net_digits x n =
    rw (digit-ne_slash (n / 1000), last_three n, signed_by-digit (n / 1000) (n % 1000)) refl

pub radiation_hour :
    (r : Extras.Radiation) (before : Radiations)
    → radiation (Extras.radiation_group r) 1 before
      ≡ ended (Extras.irradiated r (Extras.net_hour r) before)
unfolding at parse_int
radiation_hour (Extras.net true n) before = rw (net_digits b'1' n) refl
radiation_hour (Extras.net false n) before = rw (net_digits b'0' n) refl
radiation_hour (Extras.global n) before = rw (read_4 n) refl
radiation_hour (Extras.diffused n) before = rw (read_4 n) refl
radiation_hour (Extras.downward n) before = rw (read_4 n) refl
radiation_hour (Extras.upward n) before = rw (read_4 n) refl
radiation_hour (Extras.short n) before = rw (read_4 n) refl

-- A duration of a day begins with a digit below 3, which tells it from one of the last hour; so
-- neither of its groups is taken for the four that announce a radiation.
pub not_hour : (n : ℕ) → n < 300 → (digit (n / 100) == b'3') ≡ false
unfolding digit
not_hour n h = ground arith

pub not_announced : (n d : ℕ) → n < 300 → (digit (n / 100) == (b'4' + d)) ≡ false
unfolding digit
not_announced n d h = ground arith
