-- ===== src/Davis/Crc/Table.antt =====
-- The table of the CRC: what a round reads from it.
use meteodata_server.Base.{
  ℕ, zero, suc, ◌*◌, ◌%◌, ◌<◌, ◌≡◌, refl, sym, ap, ◌∙◌, Bool, true, false, arith, bit_xor, ltb,
  ◌==◌, ==_iff, ltb→lt, if◌then◌else◌, get_or,
}
use meteodata_server.Davis.Crc.Values.{crc_values}

-- A test of every row of the table, by evaluation.
every_row : (ℕ → Bool) → ℕ → Bool
every_row test zero = true
every_row test (suc n) = let earlier = every_row test n in if test n then earlier else false

row_passes : (test : ℕ → Bool) (rows i : ℕ) → i < rows → every_row test rows ≡ true → test i ≡ true
unfolding every_row
row_passes test zero i bound passed = absurd (omega arith)
row_passes test (suc n) i bound passed = ground (arith, row_passes test n i)

-- One step of the division by the CCITT polynomial x^16 + x^12 + x^5 + 1, highest bit first.
unfoldable pub ccitt_bit : ℕ → ℕ
ccitt_bit crc = if ltb crc 0x8000 then crc * 2 else bit_xor (crc * 2 % 65536) 0x1021

unfoldable pub ccitt_bits : ℕ → ℕ → ℕ
ccitt_bits zero crc = crc
ccitt_bits (suc n) crc = ccitt_bits n (ccitt_bit crc)

table_ccitt_all : every_row (λ i. get_or crc_values i 0 == ccitt_bits 8 (i * 256)) 256 ≡ true
unfolding every_row ccitt_bit ccitt_bits
table_ccitt_all = refl

pub table_ccitt : (i : ℕ) → i < 256 → get_or crc_values i 0 ≡ ccitt_bits 8 (i * 256)
table_ccitt i h = (==_iff _ _).0 (row_passes _ 256 i h table_ccitt_all)

ccitt_bits_low_all : every_row (λ b. ccitt_bits 8 b == b * 256) 256 ≡ true
unfolding every_row ccitt_bit ccitt_bits
ccitt_bits_low_all = refl

-- Eight steps over a byte only move it up.
pub ccitt_bits_low : (b : ℕ) → b < 256 → ccitt_bits 8 b ≡ b * 256
ccitt_bits_low b h = (==_iff _ _).0 (row_passes _ 256 b h ccitt_bits_low_all)

table_word_all : every_row (λ i. ltb (get_or crc_values i 0) 65536) 256 ≡ true
unfolding every_row
table_word_all = refl

pub table-lt : (i : ℕ) → i < 256 → get_or crc_values i 0 < 65536
table-lt i h = ltb→lt _ _ (row_passes _ 256 i h table_word_all)

-- The first row below `n` whose low byte is given.
row_of_low : ℕ → ℕ → ℕ
row_of_low zero low = 0
row_of_low (suc n) low =
    let rest = row_of_low n low in if get_or crc_values n 0 % 256 == low then n else rest

row_of_low_all : every_row (λ i. row_of_low 256 (get_or crc_values i 0 % 256) == i) 256 ≡ true
unfolding every_row row_of_low
row_of_low_all = refl

row_of_low-table : (i : ℕ) → i < 256 → row_of_low 256 (get_or crc_values i 0 % 256) ≡ i
row_of_low-table i h = (==_iff _ _).0 (row_passes _ 256 i h row_of_low_all)

-- The low bytes of the table are all different.
pub table_low_inj :
    (i j : ℕ)
    → i < 256
    → j < 256
    → get_or crc_values i 0 % 256 ≡ get_or crc_values j 0 % 256
    → i ≡ j
table_low_inj i j p q e = sym (row_of_low-table i p) ∙ ap (row_of_low 256) e ∙ row_of_low-table j q
