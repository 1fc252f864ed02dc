-- ===== src/Davis/Crc/RoundTrip.antt =====
-- `computeCRC` writes the one ending that `validateCRC` accepts.
use meteodata_server.Base.{
  ℕ, ◌-◌, ◌*◌, ◌/◌, ◌%◌, ◌≤◌, ◌<◌, ◌≡◌, ◌↔◌, sym, ap, ap₂, ◌∙◌, true, arith, [], ◌∷◌, ◌++◌, bit_xor,
  get_or, Bytes, IsBytes, length, take, drop, length-append, length-take, take-append-drop,
  length-drop, last_two, take-append_self, drop-IsBytes,
}
use meteodata_server.Base.Bits.{bit_xor_self, zero-bit_xor}
use meteodata_server.Davis.Crc.Values.{crc_values}
use meteodata_server.Davis.Crc.{crc_round, crc_from, validate_crc, compute_crc}
use meteodata_server.Davis.Crc.Detection.{
  crc_from-lt, crc_from-append, crc_pair_inj, validate_crc_iff,
}

-- A byte equal to the high byte of the CRC selects the first row of the table, which is 0.
crc_round_high : (c b : ℕ) → c / 256 ≡ b → crc_round c b ≡ c * 256 % 65536
unfolding crc_round
crc_round_high c b h =
    ap (λ k. bit_xor (get_or crc_values (k % 256) 0) (c * 256 % 65536))
      (ap (bit_xor (c / 256)) (sym h) ∙ bit_xor_self (c / 256))
    ∙ zero-bit_xor (c * 256 % 65536)

-- The two rounds over the bytes of the CRC itself bring it to 0.
crc_round_own : (c : ℕ) → c < 65536 → crc_round (crc_round c (c / 256 % 256)) (c % 256) ≡ 0
crc_round_own c h =
    let moved = crc_round_high c (c / 256 % 256) (omega arith) in
    rw moved (crc_round_high (c * 256 % 65536) (c % 256) (omega arith) ∙ omega arith)

-- What `computeCRC` writes behind a body.
abbrev sealed : Bytes → Bytes
sealed body = body ++ (crc_from 0 body / 256 % 256) ∷ (crc_from 0 body % 256) ∷ []

crc_from-sealed : (body : Bytes) → crc_from 0 (sealed body) ≡ 0
crc_from-sealed body =
    crc_from-append 0 body _
    ∙ unfold crc_from in crc_round_own (crc_from 0 body) (crc_from-lt 0 body (omega arith))

-- A buffer of at least two bytes filled by `computeCRC` keeps its size and all but its last two
-- bytes, and `validateCRC` accepts it, whatever the last two bytes were.
pub validate_crc-compute_crc :
    (msg : Bytes)
    → 2 ≤ length msg
    → (validate_crc (compute_crc msg) ≡ true)
      × (length (compute_crc msg) ≡ length msg)
      × (take (length msg - 2) (compute_crc msg) ≡ take (length msg - 2) msg)
unfolding compute_crc
validate_crc-compute_crc msg h =
    let body = take (length msg - 2) msg in
    (
      (validate_crc_iff (sealed body)).1 (crc_from-sealed body),
      omega (
        arith,
        length-append {0} body ((crc_from 0 body / 256 % 256) ∷ (crc_from 0 body % 256) ∷ []),
        length-take {0} (length msg - 2) msg,
      ),
      take-append_self (length msg - 2) msg _ (omega arith),
    )

-- Only one ending of two bytes brings the CRC of a body to 0.
sealed_unique :
    (body : Bytes) (a b : ℕ)
    → IsBytes (a ∷ b ∷ [])
    → crc_from 0 (body ++ (a ∷ b ∷ [])) ≡ 0
    → sealed body ≡ body ++ (a ∷ b ∷ [])
sealed_unique body a b bytes h =
    let c = crc_from 0 body in
    let (high, low) =
      crc_pair_inj 0 body [] (c / 256 % 256) (c % 256) a b (omega arith)
        (omega arith, (omega arith, bytes)) tt (crc_from-sealed body ∙ sym h) in
    ap₂ (λ x y. body ++ (x ∷ y ∷ [])) high low

ending :
    (msg : Bytes)
    → 2 ≤ length msg
    → IsBytes msg
    → (a : ℕ) × (b : ℕ) × (take (length msg - 2) msg ++ (a ∷ b ∷ []) ≡ msg) × IsBytes (a ∷ b ∷ [])
ending msg h bytes =
    let n = length msg - 2 in
    let (a, b, ends) = last_two (drop n msg) (omega (arith, length-drop {0} n msg)) in
    (
      a,
      b,
      ap (◌++◌ (take n msg)) (sym ends) ∙ take-append-drop n msg,
      rw ends at (drop-IsBytes n msg bytes),
    )

-- Of all buffers of at least two bytes, `validateCRC` accepts exactly those that `computeCRC`
-- leaves unchanged.
pub validate_crc-compute_crc_iff :
    (msg : Bytes)
    → 2 ≤ length msg
    → IsBytes msg
    → (validate_crc msg ≡ true) ↔ (compute_crc msg ≡ msg)
unfolding compute_crc
validate_crc-compute_crc_iff msg h bytes = (
  λ ok.
      let (a, b, shape, pair) = ending msg h bytes in
      sealed_unique (take (length msg - 2) msg) a b pair
        (ap (crc_from 0) shape ∙ (validate_crc_iff msg).0 ok)
      ∙ shape,
  λ e. sym (ap validate_crc e) ∙ (validate_crc-compute_crc msg h).0,
)
