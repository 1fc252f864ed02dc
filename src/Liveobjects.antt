-- ===== src/Liveobjects.antt =====
-- The payloads of the LoRa sensors (src/liveobjects/liveobjects_message.cpp).
pub mod Thpllora
pub mod BaraniRainGauge
pub mod Oy1110
pub mod Wind
pub mod BaraniAnemometer2026
pub mod Cpl01
pub mod BaraniThermohygro
use meteodata_server.Base.{
  ℕ, Bool, true, false, ◌&&◌, ◌||◌, List, [], ◌∷◌, Bytes, leb, ◌==◌, length,
}

abbrev pub is_hex : ℕ → Bool
is_hex c = (leb b'0' c && leb c b'9') || (leb b'a' c && leb c b'f') || (leb b'A' c && leb c b'F')

abbrev pub all_hex : Bytes → Bool
all_hex [] = true
all_hex (c ∷ cs) = is_hex c && all_hex cs

abbrev pub is_among : ℕ → List ℕ → Bool
is_among n [] = false
is_among n (s ∷ sizes) = n == s || is_among n sizes

-- LiveobjectsMessage::validateInput
unfoldable pub validate_input : Bytes → List ℕ → Bool
validate_input payload expected_size = is_among (length payload) expected_size && all_hex payload
