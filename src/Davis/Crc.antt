-- ===== src/Davis/Crc.antt =====
-- The CRC of the messages exchanged with a Vantage Pro 2 station: `validateCRC` and `computeCRC`
-- (src/davis/vantagepro2_message.cpp). A message is the list of its bytes.
pub mod Values
pub mod Table
pub mod Detection
pub mod RoundTrip
pub mod Polynomial
use meteodata_server.Base.{
  ℕ, ◌+◌, ◌-◌, ◌*◌, ◌/◌, ◌%◌, bit_xor, Bool, [], ◌∷◌, ◌++◌, ◌==◌, Bytes, length, get_or, take,
}
use Values.{crc_values}

-- `uint8_t index = (crc >> 8) ^ bytes[i];`
abbrev pub crc_index : ℕ → ℕ → ℕ
crc_index crc byte = bit_xor (crc / 256) byte % 256

-- One round of the loop: `crc = CRC_VALUES[index] ^ ((crc << 8) & 0xFFFF);`
unfoldable pub crc_round : ℕ → ℕ → ℕ
crc_round crc byte = bit_xor (get_or crc_values (crc_index crc byte) 0) (crc * 256 % 65536)

-- The loop over the bytes, from a value of `crc`.
unfoldable pub crc_from : ℕ → Bytes → ℕ
crc_from crc [] = crc
crc_from crc (b ∷ bs) = crc_from (crc_round crc b) bs

-- VantagePro2Message::validateCRC
unfoldable pub validate_crc : Bytes → Bool
validate_crc msg = crc_from 0 msg == 0

-- VantagePro2Message::computeCRC: the last two bytes are overwritten. The callers pass at least
-- two bytes.
unfoldable pub compute_crc : Bytes → Bytes
compute_crc msg =
    let body = take (length msg - 2) msg in
    let crc = crc_from 0 body in body ++ (crc / 256 % 256) ∷ (crc % 256) ∷ []
