-- ===== src/HexParser/Values.antt =====
-- What the parsers read: digits written in base 16 are read back, and blanks do not count.
use native.Mathlib.Nat.{pow-suc, mul_assoc, mul-add-mod_self_left, div-add-mod, zero-mod}
use meteodata_server.Base.{
  ◌/◌, ℕ, zero, suc, ◌+◌, ◌-◌, ◌*◌, ◌%◌, ◌^◌, ◌<◌, ◌≡◌, refl, ap, ◌∙◌, sym, true, false, arith,
  List, [], ◌∷◌, ◌++◌, Bytes, ltb, if◌then◌else◌, Bool-cases, inl, inr, All, map, length,
}
use meteodata_server.HexParser.{isspace, add_digit, parse_from, parse}

-- The digit of a value, in upper case.
abbrev pub hex_digit : ℕ → ℕ
hex_digit d = if ltb d 10 then b'0' + d else b'A' + (d - 10)

-- The number that digits stand for, the most significant first.
abbrev pub number : List ℕ → ℕ
number [] = 0
number (d ∷ ds) = d * 16 ^ length ds + number ds

abbrev pub IsDigits : List ℕ → Type 0
IsDigits = All (λ d. d < 16)

hex_digit_solid : (d : ℕ) → d < 16 → isspace (hex_digit d) ≡ false
hex_digit_solid d h = ground arith

add_digit-hex_digit : (n d : ℕ) → d < 16 → add_digit 16 n (hex_digit d) ≡ n * 16 + d
add_digit-hex_digit n d h = ground arith

-- A destination cut to its width before a digit is put at its end.
digit_mod : (n d m : ℕ) → (n % m * 16 + d) % m ≡ (n * 16 + d) % m
digit_mod n d m = sym (
    ap (λ x. x % m) (omega (arith, div-add-mod n m, mul_assoc m (n / m) 16))
    ∙ mul-add-mod_self_left m (n / m * 16) (n % m * 16 + d))

shift_digit : (n d p r : ℕ) → (n * 16 + d) * p + r ≡ n * (p * 16) + (d * p + r)
shift_digit n d p r = omega arith

parse_from-digits :
    (w n : ℕ) (ds : List ℕ) (rest : Bytes)
    → IsDigits ds
    → parse_from w 16 (length ds) (n % 2 ^ w) (map hex_digit ds ++ rest)
      ≡ ((n * 16 ^ length ds + number ds) % 2 ^ w, rest)
unfolding parse_from
parse_from-digits w n [] [] h = ap (λ v. (v % 2 ^ w, [])) (omega arith)
parse_from-digits w n [] (c ∷ rest) h = ap (λ v. (v % 2 ^ w, c ∷ rest)) (omega arith)
parse_from-digits w n (d ∷ ds) rest h =
    rw (hex_digit_solid d h.0, add_digit-hex_digit (n % 2 ^ w) d h.0, digit_mod n d (2 ^ w))
      (parse_from-digits w (n * 16 + d) ds rest h.1
        ∙ ap (λ v. (v % 2 ^ w, rest))
            (shift_digit n d (16 ^ length ds) (number ds)
              ∙ ap (λ p. n * p + (d * 16 ^ length ds + number ds)) (sym (pow-suc 16 (length ds)))))

-- The digits of a number, the most significant first, are read as that number cut to the width of
-- the destination, and the stream is left just after them.
pub parse-digits :
    (w : ℕ) (ds : List ℕ) (rest : Bytes)
    → IsDigits ds
    → parse w 16 (length ds) (map hex_digit ds ++ rest) ≡ (number ds % 2 ^ w, rest)
parse-digits w ds rest h =
    rw (ap (λ n. parse_from w 16 (length ds) n (map hex_digit ds ++ rest)) (sym (zero-mod (2 ^ w))))
      (parse_from-digits w 0 ds rest h ∙ ap (λ v. (v % 2 ^ w, rest)) (omega arith))

abbrev pub without_blanks : Bytes → Bytes
without_blanks [] = []
without_blanks (c ∷ is) = let rest = without_blanks is in if isspace c then rest else c ∷ rest

parse_from-zero :
    (w base destination : ℕ) (is : Bytes) → (parse_from w base 0 destination is).0 ≡ destination
unfolding parse_from
parse_from-zero w base destination [] = refl
parse_from-zero w base destination (c ∷ is) = refl

module _ (w base i destination c : ℕ) (is : Bytes) where
  parse_from_blank :
      isspace c ≡ true
      → parse_from w base (suc i) destination (c ∷ is) ≡ parse_from w base (suc i) destination is
  unfolding parse_from
  parse_from_blank h =
      ap
        (λ b.
          parse_from w base (if b then suc i else i)
            (if b then destination else add_digit base destination c % 2 ^ w) is)
        h

  parse_from_solid :
      isspace c ≡ false
      → parse_from w base (suc i) destination (c ∷ is)
        ≡ parse_from w base i (add_digit base destination c % 2 ^ w) is
  unfolding parse_from
  parse_from_solid h =
      ap
        (λ b.
          parse_from w base (if b then suc i else i)
            (if b then destination else add_digit base destination c % 2 ^ w) is)
        h

-- Blanks do not count: a number is read as if they were not there, wherever they are.
pub parse_from-without_blanks :
    (w base i destination : ℕ) (is : Bytes)
    → (parse_from w base i destination is).0
      ≡ (parse_from w base i destination (without_blanks is)).0
parse_from-without_blanks w base zero destination is =
    parse_from-zero w base destination is
    ∙ sym (parse_from-zero w base destination (without_blanks is))
parse_from-without_blanks w base (suc i) destination [] = refl
parse_from-without_blanks w base (suc i) destination (c ∷ is) = elim (Bool-cases (isspace c)) [
  | inl b ↦
      rw (parse_from_blank w base i destination c is b)
        (rw b (parse_from-without_blanks w base (suc i) destination is))
  | inr s ↦ rw (parse_from_solid w base i destination c is s) (
      rw s (
        rw (parse_from_solid w base i destination c (without_blanks is) s)
          (parse_from-without_blanks w base i (add_digit base destination c % 2 ^ w) is)))
]

-- Two digits for each byte, and the number that bytes stand for, the least significant first.
abbrev pub hex_bytes : Bytes → Bytes
hex_bytes [] = []
hex_bytes (b ∷ bs) = hex_digit (b / 16) ∷ hex_digit (b % 16) ∷ hex_bytes bs

abbrev pub number_le : Bytes → ℕ
number_le [] = 0
number_le (b ∷ bs) = b + 256 * number_le bs

abbrev pub twice : Bytes → ℕ
twice [] = 0
twice (b ∷ bs) = suc (suc (twice bs))
