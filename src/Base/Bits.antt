-- ===== src/Base/Bits.antt =====
-- Laws of `bit_xor`: the native operation means a recursion on binary digits with fuel, and the
-- laws go through one equation for the lowest digit.
use Prim.Native.Nat.{
  ℕ, zero, suc, ◌+◌, ◌*◌, ◌/◌, ◌%◌, ◌^◌, ◌≤◌, ◌<◌, bit_xor, differ, digits, bit_xor-bitwise,
}
use mathlib.Core.Path.{◌≡◌, refl, sym, ap, ◌∙◌}
use mathlib.Core.WellFounded
use native.Mathlib.Nat.{pow-suc, add-zero, mul-one}
use native.Mathlib.Omega.{arith}
use meteodata_server.Base.Order.{lt_wf}

abbrev xor_digits : ℕ → ℕ → ℕ → ℕ
xor_digits n a b = digits (λ b. b) differ n a b

enough_fuel : (x y j k : ℕ) → x ≤ j → x ≤ k → xor_digits j x y ≡ xor_digits k x y
enough_fuel zero y zero zero hj hk = refl
enough_fuel zero y zero (suc k) hj hk = refl
enough_fuel zero y (suc j) zero hj hk = refl
enough_fuel zero y (suc j) (suc k) hj hk = refl
enough_fuel (suc x) y zero k hj hk = absurd (omega arith)
enough_fuel (suc x) y (suc j) zero hj hk = absurd (omega arith)
enough_fuel (suc x) y (suc j) (suc k) hj hk =
    rw (enough_fuel (suc x / 2) (y / 2) j k (omega arith) (omega arith))

digit_step : (a b : ℕ) → bit_xor a b ≡ bit_xor (a / 2) (b / 2) * 2 + differ (a % 2) (b % 2)
digit_step zero b = simp bit_xor-bitwise (omega arith)
digit_step (suc a) b =
    simp bit_xor-bitwise
      (omega (arith, enough_fuel (suc a / 2) (b / 2) a (suc a / 2) (omega arith) (omega arith)))

differ_sum : (x y : ℕ) → x < 2 → y < 2 → differ x y ≡ (x + y) % 2
differ_sum zero zero p q = refl
differ_sum zero (suc zero) p q = refl
differ_sum (suc zero) zero p q = refl
differ_sum (suc zero) (suc zero) p q = refl
differ_sum zero (suc (suc y)) p q = absurd (omega arith)
differ_sum (suc zero) (suc (suc y)) p q = absurd (omega arith)
differ_sum (suc (suc x)) y p q = absurd (omega arith)

pub bit_xor_step : (a b : ℕ) → bit_xor a b ≡ bit_xor (a / 2) (b / 2) * 2 + (a % 2 + b % 2) % 2
bit_xor_step a b =
    omega (arith, digit_step a b, differ_sum (a % 2) (b % 2) (omega arith) (omega arith))

pub zero-bit_xor : (b : ℕ) → bit_xor 0 b ≡ b
zero-bit_xor b = bit_xor-bitwise 0 b

pub bit_xor_self : (a : ℕ) → bit_xor a a ≡ 0
bit_xor_self a = WellFounded.induction lt_wf {C = λ k. bit_xor k k ≡ 0} a step
  where
    step : (n : ℕ) → ((m : ℕ) → m < n → bit_xor m m ≡ 0) → bit_xor n n ≡ 0
    step zero ih = refl
    step (suc n) ih = omega (arith, bit_xor_step (suc n) (suc n), ih (suc n / 2) (omega arith))

-- `^` with a mask is undone by the same mask.
pub bit_xor_twice : (a b : ℕ) → bit_xor a (bit_xor a b) ≡ b
bit_xor_twice a =
    WellFounded.induction lt_wf {C = λ k. (b : ℕ) → bit_xor k (bit_xor k b) ≡ b} a step
  where
    step :
        (n : ℕ)
        → ((m : ℕ) → m < n → (b : ℕ) → bit_xor m (bit_xor m b) ≡ b)
        → (b : ℕ) → bit_xor n (bit_xor n b) ≡ b
    step zero ih b = ap (bit_xor 0) (zero-bit_xor b) ∙ zero-bit_xor b
    step (suc n) ih b =
        let half : bit_xor (suc n) b / 2 ≡ bit_xor (suc n / 2) (b / 2) =
          omega (arith, bit_xor_step (suc n) b) in
        omega (
          arith,
          bit_xor_step (suc n) b,
          bit_xor_step (suc n) (bit_xor (suc n) b),
          ap (bit_xor (suc n / 2)) half,
          ih (suc n / 2) (omega arith) (b / 2),
        )

pub bit_xor-zero : (a : ℕ) → bit_xor a 0 ≡ a
bit_xor-zero a = ap (bit_xor a) (sym (bit_xor_self a)) ∙ bit_xor_twice a a

pub bit_xor_left_inj : (a b c : ℕ) → bit_xor a b ≡ bit_xor a c → b ≡ c
bit_xor_left_inj a b c e = sym (bit_xor_twice a b) ∙ ap (bit_xor a) e ∙ bit_xor_twice a c

-- A field moved up by one more bit.
double_field : (field bits : ℕ) → field * 2 ^ suc bits ≡ 2 * (field * 2 ^ bits)
double_field field bits = omega (arith, ap (λ (power : ℕ). field * power) (pow-suc 2 bits))

-- Numbers split in fields of `k` bits: `^` works on each field.
pub bit_xor_fields :
    (k a b r s : ℕ)
    → r < 2 ^ k
    → s < 2 ^ k
    → bit_xor (a * 2 ^ k + r) (b * 2 ^ k + s) ≡ bit_xor a b * 2 ^ k + bit_xor r s
bit_xor_fields zero a b zero zero p q = simp (add-zero, mul-one) (omega arith)
bit_xor_fields zero a b zero (suc s) p q = absurd (omega arith)
bit_xor_fields zero a b (suc r) s p q = absurd (omega arith)
bit_xor_fields (suc k) a b r s p q = ground (
  arith,
  bit_xor_step (a * 2 ^ suc k + r) (b * 2 ^ suc k + s),
  bit_xor_step r s,
  double_field a k,
  double_field b k,
  double_field (bit_xor a b) k,
  pow-suc 2 k,
  bit_xor_fields k a b (r / 2) (s / 2),
)

pub bit_xor-lt : (k r s : ℕ) → r < 2 ^ k → s < 2 ^ k → bit_xor r s < 2 ^ k
bit_xor-lt zero zero zero p q = omega arith
bit_xor-lt zero (suc r) s p q = absurd (omega arith)
bit_xor-lt zero zero (suc s) p q = absurd (omega arith)
bit_xor-lt (suc k) r s p q = omega (
  arith,
  bit_xor_step r s,
  pow-suc 2 k,
  bit_xor-lt k (r / 2) (s / 2) (omega (arith, pow-suc 2 k)) (omega (arith, pow-suc 2 k)),
)

pub bit_xor_comm : (a b : ℕ) → bit_xor a b ≡ bit_xor b a
bit_xor_comm a = WellFounded.induction lt_wf {C = λ k. (b : ℕ) → bit_xor k b ≡ bit_xor b k} a step
  where
    step :
        (n : ℕ)
        → ((m : ℕ) → m < n → (b : ℕ) → bit_xor m b ≡ bit_xor b m)
        → (b : ℕ) → bit_xor n b ≡ bit_xor b n
    step zero ih b = zero-bit_xor b ∙ sym (bit_xor-zero b)
    step (suc n) ih b = omega (
      arith,
      bit_xor_step (suc n) b,
      bit_xor_step b (suc n),
      ih (suc n / 2) (omega arith) (b / 2),
    )

half-bit_xor : (a b : ℕ) → bit_xor a b / 2 ≡ bit_xor (a / 2) (b / 2)
half-bit_xor a b = omega (arith, bit_xor_step a b)

pub bit_xor_assoc : (a b c : ℕ) → bit_xor (bit_xor a b) c ≡ bit_xor a (bit_xor b c)
bit_xor_assoc a =
    WellFounded.induction lt_wf
      {C = λ k. (b c : ℕ) → bit_xor (bit_xor k b) c ≡ bit_xor k (bit_xor b c)} a step
  where
    step :
        (n : ℕ)
        → ((m : ℕ) → m < n → (b c : ℕ) → bit_xor (bit_xor m b) c ≡ bit_xor m (bit_xor b c))
        → (b c : ℕ) → bit_xor (bit_xor n b) c ≡ bit_xor n (bit_xor b c)
    step zero ih b c = simp zero-bit_xor
    step (suc n) ih b c = omega (
      arith,
      bit_xor_step (suc n) b,
      bit_xor_step b c,
      bit_xor_step (bit_xor (suc n) b) c,
      bit_xor_step (suc n) (bit_xor b c),
      ap (λ t. bit_xor t (c / 2)) (half-bit_xor (suc n) b),
      ap (bit_xor (suc n / 2)) (half-bit_xor b c),
      ih (suc n / 2) (omega arith) (b / 2) (c / 2),
    )

pub bit_xor_right_inj : (a b c : ℕ) → bit_xor a c ≡ bit_xor b c → a ≡ b
bit_xor_right_inj a b c e = bit_xor_left_inj c a b (bit_xor_comm c a ∙ e ∙ bit_xor_comm b c)
