-- ===== src/HexParser.antt =====
-- The numbers read from a hexadecimal payload (src/hex_parser.h). A stream is the list of the
-- characters left; `get` at its end gives no character, neither blank nor a digit. A destination is an
-- unsigned integer of `w` bits.
pub mod Values
use meteodata_server.Base.{
  ℕ, zero, suc, ◌+◌, ◌-◌, ◌*◌, ◌%◌, ◌^◌, Bool, ◌&&◌, ◌||◌, [], ◌∷◌, Bytes, leb, ◌==◌, if◌then◌else◌,
}

-- std::isspace
abbrev pub isspace : ℕ → Bool
isspace c = c == b' ' || (leb 9 c && leb c 13)

-- One digit put at the end of the number; any other character leaves it as it is.
abbrev pub add_digit : ℕ → ℕ → ℕ → ℕ
add_digit base n c =
    if leb b'0' c && leb c b'9'
    then n * base + c - b'0'
    else if leb b'A' c && leb c b'F'
    then n * base + c - b'A' + 10
    else if leb b'a' c && leb c b'f'
    then n * base + c - b'a' + 10
    else n

module _ (w base : ℕ) where
  -- ParserBigEndian<T>::parse, from `length` characters still to read and a destination.
  unfoldable pub parse_from : ℕ → ℕ → Bytes → ℕ × Bytes
  parse_from i destination [] = (destination, [])
  parse_from zero destination (c ∷ is) = (destination, c ∷ is)
  parse_from (suc i) destination (c ∷ is) =
      parse_from (if isspace c then suc i else i)
        (if isspace c then destination else add_digit base destination c % 2 ^ w) is

  abbrev pub parse : ℕ → Bytes → ℕ × Bytes
  parse length is = parse_from length 0 is

-- The inner loop of ParserLittleEndian<T>::parse: two characters for a byte. A blank counts for one of
-- the two and adds one to `i`.
abbrev pub blanks : ℕ → ℕ
blanks c = if isspace c then 1 else 0

abbrev pub add_char : ℕ → ℕ → ℕ → ℕ
add_char base byte c = if isspace c then byte else add_digit base byte c

module _ (w base : ℕ) where
  -- ParserLittleEndian<T>::parse, from `i`, the weight of the next byte and a destination.
  unfoldable pub parse_le_from : ℕ → ℕ → ℕ → Bytes → ℕ × Bytes
  parse_le_from i weight destination [] = (destination, [])
  parse_le_from zero weight destination (c ∷ is) = (destination, c ∷ is)
  parse_le_from (suc i) weight destination (c ∷ []) =
      ((destination + add_char base 0 c * weight) % 2 ^ w, [])
  parse_le_from (suc i) weight destination (c ∷ d ∷ is) =
      parse_le_from (suc i + blanks c + blanks d - 2) (weight * 256)
        ((destination + add_char base (add_char base 0 c) d * weight) % 2 ^ w) is

  -- An odd length is refused by the constructor; the lengths of the callers are even.
  abbrev pub parse_le : ℕ → Bytes → ℕ × Bytes
  parse_le length is = parse_le_from length 1 0 is

-- Ignorer: characters are read until `i` of them are not blank. At the end of the stream `get` gives
-- no blank each time, so it ends as well.
unfoldable pub ignore : ℕ → Bytes → Bytes
ignore i [] = []
ignore zero (c ∷ is) = c ∷ is
ignore (suc i) (c ∷ is) = ignore (if isspace c then suc i else i) is
