-- ===== src/Tests/Crc.antt =====
-- The CRC, at a request for the archive.
use meteodata_server.Base.{◌≡◌, ◌↔◌, refl, inl, true, false, [], ◌∷◌, ◌==◌, arith, Bytes}
use meteodata_server.Davis.Crc.{validate_crc, compute_crc, crc_from, crc_round}
use meteodata_server.Davis.Crc.Detection.{validate_crc_burst}
use meteodata_server.Davis.Crc.RoundTrip.{validate_crc-compute_crc_iff}
use meteodata_server.Davis.Crc.Polynomial.{crc_ccitt, validate_crc_ccitt}

-- 2022-01-08 at noon, and its CRC.
abbrev message : Bytes
message = 0x28 ∷ 0x2c ∷ 0xb0 ∷ 0x04 ∷ 31 ∷ 163 ∷ []

message_crc : compute_crc (0x28 ∷ 0x2c ∷ 0xb0 ∷ 0x04 ∷ 0 ∷ 0 ∷ []) ≡ message
unfolding compute_crc crc_from crc_round
message_crc = refl

message_valid : validate_crc message ≡ true
unfolding validate_crc crc_from crc_round
message_valid = refl

validate_crc_burst_example : validate_crc (0x28 ∷ 0x2d ∷ 0xb1 ∷ 0x04 ∷ 31 ∷ 163 ∷ []) ≡ false
validate_crc_burst_example =
    validate_crc_burst (0x28 ∷ []) (0x04 ∷ 31 ∷ 163 ∷ []) 0x2c 0xb0 0x2d 0xb1 (ground arith)
      (ground arith) message_valid (inl (λ h. omega (arith, h)))

validate_crc-compute_crc_iff_example :
    (validate_crc message ≡ true) ↔ (compute_crc message ≡ message)
validate_crc-compute_crc_iff_example =
    validate_crc-compute_crc_iff message (omega arith) (ground arith)

validate_crc_ccitt_example : validate_crc message ≡ (crc_ccitt 0 message == 0)
validate_crc_ccitt_example = validate_crc_ccitt message (ground arith)
