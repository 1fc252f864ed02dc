-- ===== src/Synop/Digits.antt =====
-- Numbers written with decimal digits, as the groups hold them, and read by `parseInt`.
use meteodata_server.Base.{
  ℕ, zero, suc, ◌+◌, ◌*◌, ◌/◌, ◌%◌, ◌≡◌, ◌∙◌, refl, ap, arith, Bool, true, false, List, [], ◌∷◌,
  map, Option, some, ◌==◌, if◌then◌else◌, Bool-cases, inl, inr, Bool-cases, inl, inr,
}
use meteodata_server.Base.Int.{ℤ, pos, negsuc, ◌+ℤ◌, ◌-ℤ◌, ◌*ℤ◌}
use meteodata_server.Synop.{ended, index, any_is, read_digits, signed_by}

unfoldable pub digit : ℕ → ℕ
digit d = b'0' + d

pub digit-ne_slash : (d : ℕ) → (digit d == b'/') ≡ false
unfolding digit
digit-ne_slash d = ground arith

digit_step : (n d : ℕ) → pos n *ℤ pos 10 +ℤ (pos (digit d) -ℤ pos b'0') ≡ pos (n * 10 + d)
unfolding digit ◌*ℤ◌ ◌+ℤ◌ ◌-ℤ◌
digit_step n d = ground arith

-- The number that digits stand for, after those of `n`.
abbrev pub number_from : ℕ → List ℕ → ℕ
number_from n [] = n
number_from n (d ∷ ds) = number_from (n * 10 + d) ds

pub read_digits-digit :
    (ds : List ℕ) (n : ℕ) → read_digits (pos n) (map digit ds) ≡ some (pos (number_from n ds))
unfolding read_digits
read_digits-digit [] n = refl
read_digits-digit (d ∷ ds) n =
    rw (digit-ne_slash d, digit_step n d) (read_digits-digit ds (n * 10 + d))

abbrev pub digits_2 : ℕ → List ℕ
digits_2 n = n / 10 ∷ n % 10 ∷ []

abbrev pub digits_3 : ℕ → List ℕ
digits_3 n = n / 100 ∷ n / 10 % 10 ∷ n % 10 ∷ []

abbrev pub digits_4 : ℕ → List ℕ
digits_4 n = n / 1000 ∷ n / 100 % 10 ∷ n / 10 % 10 ∷ n % 10 ∷ []

abbrev pub read : List ℕ → Option ℤ
read ds = read_digits (pos 0) (map digit ds)

pub read_2 : (n : ℕ) → read (digits_2 n) ≡ some (pos n)
read_2 n = read_digits-digit (digits_2 n) 0 ∙ ap (λ k. some (pos k)) (omega arith)

pub read_3 : (n : ℕ) → read (digits_3 n) ≡ some (pos n)
read_3 n = read_digits-digit (digits_3 n) 0 ∙ ap (λ k. some (pos k)) (omega arith)

pub read_4 : (n : ℕ) → read (digits_4 n) ≡ some (pos n)
read_4 n = read_digits-digit (digits_4 n) 0 ∙ ap (λ k. some (pos k)) (omega arith)

-- A sign, 1 for a negative number.
abbrev pub sign : Bool → ℕ
sign negative = if negative then b'1' else b'0'

abbrev pub minus : ℕ → ℤ
minus zero = pos 0
minus (suc n) = negsuc n

abbrev pub signed : Bool → ℕ → ℤ
signed negative n = if negative then minus n else pos n

pub negated : (n : ℕ) → pos n *ℤ negsuc 0 ≡ minus n
unfolding ◌*ℤ◌
negated zero = refl
negated (suc n) = ground arith

pub signed_by-sign :
    (negative : Bool) (n : ℕ) → signed_by (sign negative) (some (pos n)) ≡ some (signed negative n)
signed_by-sign true n = ap some (negated n)
signed_by-sign false n = refl

-- None of the four characters after the first is a '/'.
pub any_is-none :
    (x p q r s : ℕ)
    → (p == b'/') ≡ false
    → (q == b'/') ≡ false
    → (r == b'/') ≡ false
    → (s == b'/') ≡ false
    → any_is b'/' (x ∷ p ∷ q ∷ r ∷ s ∷ []) (1 ∷ 2 ∷ 3 ∷ 4 ∷ []) ≡ ended false
unfolding any_is index
any_is-none x p q r s hp hq hr hs = rw (hp, hq, hr, hs) refl

digit-one : (d : ℕ) → (digit d == b'1') ≡ (d == 1)
unfolding digit
digit-one d = ground arith

pub signed_by-digit : (d n : ℕ) → signed_by (digit d) (some (pos n)) ≡ some (signed (d == 1) n)
signed_by-digit d n = rw (digit-one d) (elim (Bool-cases (d == 1)) [
  | inl one ↦ rw one (ap some (negated n))
  | inr other ↦ rw other refl
])
