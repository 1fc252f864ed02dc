-- ===== src/Synop.antt =====
-- The decoder of SYNOP messages (src/synop/synop_decoder/parser.cpp). A text is the list of its
-- characters, each its ASCII code, and `int` is a ℤ that does not overflow, which holds for groups of
-- at most nine digits.
pub mod Message
pub mod Groups
pub mod Section1
pub mod Sunshine
pub mod Gusts
pub mod Section3
pub mod Decoder
pub mod Digits
pub mod Items
pub mod Report
pub mod Mandatory
pub mod Termination
pub mod Total
pub mod Extras
pub mod Fields
pub mod Supplement
pub mod Whole
pub mod Faults
use meteodata_server.Base.{
  ℕ, zero, suc, ◌+◌, ◌-◌, Bool, true, false, ◌&&◌, ◌||◌, List, [], ◌∷◌, Bytes, Option, none, some,
  ◌==◌, if◌then◌else◌, get_elem?, length, take, drop,
}
use meteodata_server.Base.Int.{ℤ, pos, negsuc, ◌+ℤ◌, ◌-ℤ◌, ◌*ℤ◌}

abbrev pub Text : Type 0
Text = Bytes

-- How a call ends: it returns, throws (`at` out of range, `value` of an empty optional), or reads
-- past the end of a text or of the groups, which is undefined behaviour. A loop on fuel may run out.
pub data Outcome {ℓ} (A : Type ℓ) : Type ℓ where
  ended : A → Outcome A
  thrown : Outcome A
  undefined : Outcome A
  exhausted : Outcome A

infixl 5 ◌>>=◌
abbrev pub ◌>>=◌ {ℓ κ} : {A : Type ℓ} {B : Type κ} → Outcome A → (A → Outcome B) → Outcome B
ended a >>= f = f a
thrown >>= f = thrown
undefined >>= f = undefined
exhausted >>= f = exhausted

-- std::string::at
unfoldable pub at : Text → ℕ → Outcome ℕ
at [] i = thrown
at (c ∷ s) zero = ended c
at (c ∷ s) (suc i) = at s i

-- std::string::operator[]: the character after the last one is a 0, the next ones are not there.
unfoldable pub index : Text → ℕ → Outcome ℕ
index [] zero = ended 0
index [] (suc i) = undefined
index (c ∷ s) zero = ended c
index (c ∷ s) (suc i) = index s i

-- std::string::operator==
abbrev pub same : Text → Text → Bool
same [] [] = true
same [] (d ∷ t) = false
same (c ∷ s) [] = false
same (c ∷ s) (d ∷ t) = c == d && same s t

-- `s[i] == a || s[j] == a || ...`, which stops at the first one found.
unfoldable pub any_is : ℕ → Text → List ℕ → Outcome Bool
any_is a s [] = ended false
any_is a s (i ∷ is) =
    index s i >>= λ c. let later = any_is a s is in if c == a then ended true else later

-- `s[i] == a && s[j] == b && ...`, which stops at the first one that differs.
unfoldable pub all_are : Text → List (ℕ × ℕ) → Outcome Bool
all_are s [] = ended true
all_are s ((i, a) ∷ is) =
    index s i >>= λ c. let later = all_are s is in if c == a then later else ended false

-- The same with `at` and `!=`.
unfoldable pub none_at : ℕ → Text → List ℕ → Outcome Bool
none_at a s [] = ended true
none_at a s (i ∷ is) =
    at s i >>= λ c. let later = none_at a s is in if c == a then ended false else later

-- `n = (n * 10) + (s[i] - '0')` over the characters, none at the first '/'.
unfoldable pub read_digits : ℤ → Text → Option ℤ
read_digits n [] = some n
read_digits n (c ∷ s) =
    let rest = read_digits (n *ℤ pos 10 +ℤ (pos c -ℤ pos b'0')) s in
    if c == b'/' then none else rest

-- parseInt, from `start` to the end, and with an `endpos`.
unfoldable pub parse_int : Text → ℕ → Option ℤ
parse_int s start = read_digits (pos 0) (drop start s)

unfoldable pub parse_int_until : Text → ℕ → ℕ → Option ℤ
parse_int_until s start endpos = read_digits (pos 0) (take (endpos + 1 - start) (drop start s))

abbrev pub signed_by : ℕ → Option ℤ → Option ℤ
signed_by sign none = none
signed_by sign (some n) = some (if sign == b'1' then n *ℤ negsuc 0 else n)

-- parseSInt
unfoldable pub parse_sint : Text → ℕ → Outcome (Option ℤ)
parse_sint s start = index s start >>= λ sign.
    ended (if sign == b'/' then none else signed_by sign (parse_int s (start + 1)))

-- std::optional::value
abbrev pub value : Option ℤ → Outcome ℤ
value none = thrown
value (some n) = ended n
