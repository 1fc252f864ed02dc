-- ===== src/Davis/Crc/Detection.antt =====
-- What the CRC of a message detects: the loop is injective in the bytes that it reads.
use meteodata_server.Base.{
  ℕ, ◌+◌, ◌*◌, ◌/◌, ◌%◌, ◌^◌, ◌<◌, ◌≡◌, ◌≢◌, ◌↔◌, ◌⊎◌, inl, inr, refl, sym, ap, ap₂, ◌∙◌, true,
  false, arith, [], ◌∷◌, ◌++◌, bit_xor, ==_iff, Bool-cases, Bytes, IsBytes, get_or,
}
use meteodata_server.Base.Bits.{
  bit_xor_fields, bit_xor-lt, bit_xor-zero, bit_xor_left_inj, bit_xor_right_inj,
}
use meteodata_server.Davis.Crc.Values.{crc_values}
use meteodata_server.Davis.Crc.{crc_index, crc_round, crc_from, validate_crc}
use meteodata_server.Davis.Crc.Table.{table-lt, table_low_inj}

pub crc_index-lt : (crc byte : ℕ) → crc_index crc byte < 256
crc_index-lt crc byte = omega arith

-- `entry ^ ((crc << 8) & 0xFFFF)`: the low byte of `crc` moves up, the low byte of `entry` stays.
xor_shifted :
    (entry crc : ℕ)
    → bit_xor entry (crc * 256 % 65536) ≡ bit_xor (entry / 256) (crc % 256) * 256 + entry % 256
xor_shifted entry crc =
    let whole : entry ≡ entry / 256 * 2 ^ 8 + entry % 256 = omega arith in
    let moved : crc * 256 % 65536 ≡ crc % 256 * 2 ^ 8 + 0 = omega arith in
    ap₂ bit_xor whole moved
    ∙ bit_xor_fields 8 (entry / 256) (crc % 256) (entry % 256) 0 (omega arith) (omega arith)
    ∙ ap (λ t. bit_xor (entry / 256) (crc % 256) * 256 + t) (bit_xor-zero (entry % 256))

pub crc_round-lt : (crc byte : ℕ) → crc_round crc byte < 65536
unfolding crc_round
crc_round-lt crc byte = bit_xor-lt 16 _ _ (table-lt _ (crc_index-lt crc byte)) (omega arith)

-- A round keeps apart both the row of the table and the low byte that it starts from.
crc_round_fields_inj :
    (c d b e : ℕ)
    → crc_round c b ≡ crc_round d e
    → (crc_index c b ≡ crc_index d e) × (c % 256 ≡ d % 256)
unfolding crc_round
crc_round_fields_inj c d b e h =
    let i = crc_index c b in
    let j = crc_index d e in
    let both =
      sym (xor_shifted (get_or crc_values i 0) c) ∙ h ∙ xor_shifted (get_or crc_values j 0) d in
    let rows : i ≡ j =
      table_low_inj i j (crc_index-lt c b) (crc_index-lt d e) (omega (arith, both)) in
    (
      rows,
      bit_xor_left_inj (get_or crc_values i 0 / 256) _ _ (
          omega (arith, both)
          ∙ ap (λ k. bit_xor (get_or crc_values k 0 / 256) (d % 256)) (sym rows)),
    )

-- From equal rows of the table: equal high bytes give equal bytes of the message, and back.
index_byte_inj : (c b e : ℕ) → c < 65536 → b < 256 → e < 256 → crc_index c b ≡ crc_index c e → b ≡ e
index_byte_inj c b e p q r h = bit_xor_left_inj (c / 256) b e (
    omega (
      arith,
      bit_xor-lt 8 (c / 256) b (omega arith) q,
      bit_xor-lt 8 (c / 256) e (omega arith) r,
      h,
    ))

index_high_inj :
    (c d b : ℕ)
    → c < 65536
    → d < 65536
    → b < 256
    → crc_index c b ≡ crc_index d b
    → c / 256 ≡ d / 256
index_high_inj c d b p q r h = bit_xor_right_inj (c / 256) (d / 256) b (
    omega (
      arith,
      bit_xor-lt 8 (c / 256) b (omega arith) r,
      bit_xor-lt 8 (d / 256) b (omega arith) r,
      h,
    ))

crc_round_state_inj :
    (c d b : ℕ) → c < 65536 → d < 65536 → b < 256 → crc_round c b ≡ crc_round d b → c ≡ d
crc_round_state_inj c d b p q r h =
    let (rows, lows) = crc_round_fields_inj c d b b h in
    omega (arith, index_high_inj c d b p q r rows, lows)

crc_round_low : (c b : ℕ) → crc_round c b % 256 ≡ get_or crc_values (crc_index c b) 0 % 256
unfolding crc_round
crc_round_low c b = omega (arith, xor_shifted (get_or crc_values (crc_index c b) 0) c)

-- Two rounds over any two bytes are injective in the bytes.
crc_round_pair_inj :
    (c a b a' b' : ℕ)
    → c < 65536
    → IsBytes (a ∷ b ∷ a' ∷ b' ∷ [])
    → crc_round (crc_round c a) b ≡ crc_round (crc_round c a') b'
    → (a ≡ a') × (b ≡ b')
crc_round_pair_inj c a b a' b' p bytes h =
    let (rows, lows) = crc_round_fields_inj (crc_round c a) (crc_round c a') b b' h in
    let first : a ≡ a' = index_byte_inj c a a' p bytes.0 bytes.1.1.0 (
      table_low_inj _ _ (crc_index-lt c a) (crc_index-lt c a')
        (sym (crc_round_low c a) ∙ lows ∙ crc_round_low c a')) in
    (
      first,
      index_byte_inj (crc_round c a) b b' (crc_round-lt c a) bytes.1.0 bytes.1.1.1.0
          (rows ∙ ap (λ t. crc_index (crc_round c t) b') (sym first)),
    )

pub crc_from-lt : (c : ℕ) (bs : Bytes) → c < 65536 → crc_from c bs < 65536
unfolding crc_from
crc_from-lt c [] p = p
crc_from-lt c (b ∷ bs) p = crc_from-lt (crc_round c b) bs (crc_round-lt c b)

pub crc_from-append : (c : ℕ) (xs ys : Bytes) → crc_from c (xs ++ ys) ≡ crc_from (crc_from c xs) ys
unfolding crc_from
crc_from-append c [] ys = refl
crc_from-append c (x ∷ xs) ys = crc_from-append (crc_round c x) xs ys

crc_from_inj :
    (c d : ℕ) (bs : Bytes)
    → c < 65536
    → d < 65536
    → IsBytes bs
    → crc_from c bs ≡ crc_from d bs
    → c ≡ d
unfolding crc_from
crc_from_inj c d [] p q r h = h
crc_from_inj c d (b ∷ bs) p q r h =
    crc_round_state_inj c d b p q r.0
      (crc_from_inj (crc_round c b) (crc_round d b) bs (crc_round-lt c b) (crc_round-lt d b) r.1 h)

-- The pair of bytes at one place of a message is determined by the CRC of the whole.
pub crc_pair_inj :
    (c : ℕ) (xs ys : Bytes) (a b a' b' : ℕ)
    → c < 65536
    → IsBytes (a ∷ b ∷ a' ∷ b' ∷ [])
    → IsBytes ys
    → crc_from c (xs ++ (a ∷ b ∷ ys)) ≡ crc_from c (xs ++ (a' ∷ b' ∷ ys))
    → (a ≡ a') × (b ≡ b')
unfolding crc_from
crc_pair_inj c [] ys a b a' b' p bytes rest h =
    crc_round_pair_inj c a b a' b' p bytes
      (crc_from_inj _ _ ys (crc_round-lt _ b) (crc_round-lt _ b') rest h)
crc_pair_inj c (x ∷ xs) ys a b a' b' p bytes rest h =
    crc_pair_inj (crc_round c x) xs ys a b a' b' (crc_round-lt c x) bytes rest h

pub validate_crc_iff : (msg : Bytes) → (validate_crc msg ≡ true) ↔ (crc_from 0 msg ≡ 0)
unfolding validate_crc
validate_crc_iff msg = ==_iff (crc_from 0 msg) 0

-- A message that `validateCRC` accepts is refused after a change of any one byte or of two
-- adjacent bytes, wherever they stand (the CRC itself included), if they still are bytes.
pub validate_crc_burst :
    (xs ys : Bytes) (a b a' b' : ℕ)
    → IsBytes (a ∷ b ∷ a' ∷ b' ∷ [])
    → IsBytes ys
    → validate_crc (xs ++ (a ∷ b ∷ ys)) ≡ true
    → (a ≢ a') ⊎ (b ≢ b')
    → validate_crc (xs ++ (a' ∷ b' ∷ ys)) ≡ false
validate_crc_burst xs ys a b a' b' bytes rest ok changed =
    elim (Bool-cases (validate_crc (xs ++ (a' ∷ b' ∷ ys)))) [
      | inl fooled ↦
          let same =
            crc_pair_inj 0 xs ys a b a' b' (omega arith) bytes rest
              ((validate_crc_iff _).0 ok ∙ sym ((validate_crc_iff _).0 fooled)) in
          absurd (elim changed [ inl n ↦ n same.0 | inr n ↦ n same.1 ])
      | inr caught ↦ caught
    ]
