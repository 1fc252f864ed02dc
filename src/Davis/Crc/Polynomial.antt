-- ===== src/Davis/Crc/Polynomial.antt =====
-- The table-driven loop computes the bitwise CCITT CRC: the division by x^16 + x^12 + x^5 + 1 of
-- the message, one bit at a time.
use meteodata_server.Base.{
  ℕ, zero, suc, ◌+◌, ◌*◌, ◌/◌, ◌%◌, ◌^◌, ◌<◌, ◌≡◌, refl, sym, ap, ap₂, ◌∙◌, arith, [], ◌∷◌, bit_xor,
  Bytes, IsBytes, ltb, ◌==◌, Bool-cases, inl, inr, ltb→lt,
}
use meteodata_server.Base.Bits.{
  bit_xor_fields, bit_xor-lt, bit_xor-zero, zero-bit_xor, bit_xor_step, bit_xor_assoc, bit_xor_comm,
}
use meteodata_server.Davis.Crc.{crc_index, crc_round, crc_from, validate_crc}
use meteodata_server.Davis.Crc.Table.{ccitt_bit, ccitt_bits, table_ccitt, ccitt_bits_low}
use meteodata_server.Davis.Crc.Detection.{crc_index-lt, crc_round-lt}

-- The reference: each byte is added to the high bits, then eight bits are divided.
pub crc_ccitt : ℕ → Bytes → ℕ
crc_ccitt crc [] = crc
crc_ccitt crc (b ∷ bs) = crc_ccitt (ccitt_bits 8 (bit_xor crc (b * 256))) bs

-- One formula for the two branches of a step.
ccitt_bit_form : (a : ℕ) → a < 65536 → ccitt_bit a ≡ bit_xor (a * 2 % 65536) (a / 32768 * 0x1021)
unfolding ccitt_bit
ccitt_bit_form a h = elim (Bool-cases (ltb a 0x8000)) [
  | inl small ↦
      let low : a / 32768 ≡ 0 = omega (arith, ltb→lt a 0x8000 small) in
      rw small (rw low (omega (arith, ltb→lt a 0x8000 small, bit_xor-zero (a * 2 % 65536))))
  | inr big ↦ let high : a / 32768 ≡ 1 = ground arith in rw big (rw high)
]

-- `^` works apart on the highest of 16 bits and on the rest.
split_top :
    (a b : ℕ)
    → bit_xor a b ≡ bit_xor (a / 32768) (b / 32768) * 32768 + bit_xor (a % 32768) (b % 32768)
split_top a b =
    let of_a : a ≡ a / 32768 * 2 ^ 15 + a % 32768 = omega arith in
    let of_b : b ≡ b / 32768 * 2 ^ 15 + b % 32768 = omega arith in
    ap₂ bit_xor of_a of_b
    ∙ bit_xor_fields 15 (a / 32768) (b / 32768) (a % 32768) (b % 32768) (omega arith) (omega arith)

rest-lt : (a b : ℕ) → bit_xor (a % 32768) (b % 32768) < 32768
rest-lt a b = bit_xor-lt 15 (a % 32768) (b % 32768) (omega arith) (omega arith)

xor_top : (a b : ℕ) → bit_xor a b / 32768 ≡ bit_xor (a / 32768) (b / 32768)
xor_top a b = omega (arith, split_top a b, rest-lt a b)

xor_moved : (a b : ℕ) → bit_xor a b * 2 % 65536 ≡ bit_xor (a * 2 % 65536) (b * 2 % 65536)
xor_moved a b =
    let of_a : a * 2 % 65536 / 2 ≡ a % 32768 = omega arith in
    let of_b : b * 2 % 65536 / 2 ≡ b % 32768 = omega arith in
    omega (
      arith,
      split_top a b,
      rest-lt a b,
      bit_xor_step (a * 2 % 65536) (b * 2 % 65536),
      ap₂ bit_xor of_a of_b,
    )

xor_polynomial :
    (x y : ℕ) → x < 2 → y < 2 → bit_xor x y * 0x1021 ≡ bit_xor (x * 0x1021) (y * 0x1021)
xor_polynomial zero zero p q = refl
xor_polynomial zero (suc zero) p q = refl
xor_polynomial (suc zero) zero p q = refl
xor_polynomial (suc zero) (suc zero) p q = refl
xor_polynomial zero (suc (suc y)) p q = absurd (omega arith)
xor_polynomial (suc zero) (suc (suc y)) p q = absurd (omega arith)
xor_polynomial (suc (suc x)) y p q = absurd (omega arith)

xor_exchange :
    (a b p q : ℕ) → bit_xor (bit_xor a b) (bit_xor p q) ≡ bit_xor (bit_xor a p) (bit_xor b q)
xor_exchange a b p q =
    bit_xor_assoc a b (bit_xor p q)
    ∙ ap (bit_xor a)
        (sym (bit_xor_assoc b p q) ∙ ap (λ t. bit_xor t q) (bit_xor_comm b p) ∙ bit_xor_assoc p b q)
    ∙ sym (bit_xor_assoc a p (bit_xor b q))

ccitt_bit_linear :
    (a b : ℕ)
    → a < 65536
    → b < 65536
    → ccitt_bit (bit_xor a b) ≡ bit_xor (ccitt_bit a) (ccitt_bit b)
ccitt_bit_linear a b p q =
    ccitt_bit_form (bit_xor a b) (bit_xor-lt 16 a b p q)
    ∙ ap₂ bit_xor (xor_moved a b) (
        ap (λ t. t * 0x1021) (xor_top a b)
        ∙ xor_polynomial (a / 32768) (b / 32768) (omega arith) (omega arith))
    ∙ xor_exchange _ _ _ _
    ∙ ap₂ bit_xor (sym (ccitt_bit_form a p)) (sym (ccitt_bit_form b q))

ccitt_bit-lt : (a : ℕ) → a < 65536 → ccitt_bit a < 65536
ccitt_bit-lt a h =
    rw (ccitt_bit_form a h)
      (bit_xor-lt 16 (a * 2 % 65536) (a / 32768 * 0x1021) (omega arith) (omega arith))

ccitt_bits_linear :
    (n a b : ℕ)
    → a < 65536
    → b < 65536
    → ccitt_bits n (bit_xor a b) ≡ bit_xor (ccitt_bits n a) (ccitt_bits n b)
unfolding ccitt_bits
ccitt_bits_linear zero a b p q = refl
ccitt_bits_linear (suc n) a b p q =
    ap (ccitt_bits n) (ccitt_bit_linear a b p q)
    ∙ ccitt_bits_linear n (ccitt_bit a) (ccitt_bit b) (ccitt_bit-lt a p) (ccitt_bit-lt b q)

-- The byte added to the high bits, split in the index of the table and the low byte.
word_split :
    (c b : ℕ) → c < 65536 → b < 256 → bit_xor c (b * 256) ≡ bit_xor (crc_index c b * 256) (c % 256)
word_split c b p q =
    let of_c : c ≡ c / 256 * 2 ^ 8 + c % 256 = omega arith in
    let of_b : b * 256 ≡ b * 2 ^ 8 + 0 = omega arith in
    let i = bit_xor (c / 256) b in
    let index : crc_index c b ≡ i = omega (arith, bit_xor-lt 8 (c / 256) b (omega arith) q) in
    let of_i : crc_index c b * 256 ≡ i * 2 ^ 8 + 0 = omega (arith, index) in
    let low : c % 256 ≡ 0 * 2 ^ 8 + c % 256 = omega arith in
    let left =
      ap₂ bit_xor of_c of_b
      ∙ bit_xor_fields 8 (c / 256) b (c % 256) 0 (omega arith) (omega arith) in
    let right =
      ap₂ bit_xor of_i low ∙ bit_xor_fields 8 i 0 0 (c % 256) (omega arith) (omega arith) in
    omega (arith, left, right, bit_xor-zero (c % 256), bit_xor-zero i, zero-bit_xor (c % 256))

-- One look in the table does eight steps of the division.
pub crc_round_ccitt :
    (c b : ℕ) → c < 65536 → b < 256 → crc_round c b ≡ ccitt_bits 8 (bit_xor c (b * 256))
unfolding crc_round
crc_round_ccitt c b p q =
    let i = crc_index c b in
    let moved : c * 256 % 65536 ≡ ccitt_bits 8 (c % 256) =
      omega (arith, ccitt_bits_low (c % 256) (omega arith)) in
    ap₂ bit_xor (table_ccitt i (crc_index-lt c b)) moved
    ∙ sym (ccitt_bits_linear 8 (i * 256) (c % 256) (omega (arith, crc_index-lt c b)) (omega arith))
    ∙ ap (ccitt_bits 8) (sym (word_split c b p q))

pub crc_from_ccitt : (c : ℕ) (bs : Bytes) → c < 65536 → IsBytes bs → crc_from c bs ≡ crc_ccitt c bs
unfolding crc_from crc_ccitt
crc_from_ccitt c [] p h = refl
crc_from_ccitt c (b ∷ bs) p h =
    crc_from_ccitt (crc_round c b) bs (crc_round-lt c b) h.1
    ∙ ap (λ t. crc_ccitt t bs) (crc_round_ccitt c b p h.0)

-- `validateCRC` accepts a message of bytes exactly when its bitwise CCITT remainder is 0.
pub validate_crc_ccitt : (msg : Bytes) → IsBytes msg → validate_crc msg ≡ (crc_ccitt 0 msg == 0)
unfolding validate_crc
validate_crc_ccitt msg h = ap (λ t. t == 0) (crc_from_ccitt 0 msg (omega arith) h)
