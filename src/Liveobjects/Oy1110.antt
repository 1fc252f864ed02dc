-- ===== src/Liveobjects/Oy1110.antt =====
-- The thermohygrometer OY1110 (src/talkpool/oy1110_thermohygrometer_message.cpp). Its measures are in
-- tenths of degrees and of percents, and `size_t` has 64 bits.
pub mod Packets
use meteodata_server.Base.{
  ℕ, zero, suc, ◌+◌, ◌-◌, ◌*◌, ◌/◌, ◌%◌, ◌^◌, Bool, true, false, ◌&&◌, not, List, [], ◌∷◌, ◌++◌,
  Bytes, Option, none, some, ltb, ◌==◌, if◌then◌else◌, length,
}
use meteodata_server.Base.Int.{ℤ, pos, negsuc, ◌-ℤ◌}
use meteodata_server.HexParser.{parse}
use meteodata_server.Liveobjects.{all_hex}

pub record DataPoint : Type 0 where
  pub valid : Bool
  pub basetime : ℤ
  pub offset : ℕ
  pub temperatures : List ℤ
  pub humidities : List ℤ

-- `length - k` on size_t.
abbrev pub minus_size : ℕ → ℕ → ℕ
minus_size length k = (length + 2 ^ 64 - k) % 2 ^ 64

-- validateInput
abbrev pub validate_input : Bytes → Bool
validate_input payload =
    not (not (length payload == 6) && minus_size (length payload) 1 % 6 == 0) && all_hex payload

-- The offset between two measures, in seconds, from the header: minutes, or hours if its first bit is set.
abbrev pub offset_of : ℕ → ℕ
offset_of header = if ltb header 128 then header % 128 * 60 else header % 128 * 3600

-- static_cast<int16_t>(temp - 800u)
abbrev pub int16 : ℕ → ℤ
int16 word = if ltb word 32768 then pos word else negsuc (65535 - word)

abbrev pub temperature_of : ℕ → ℤ
temperature_of temp = int16 ((temp + 65536 - 800) % 65536)

-- Two bytes and two digits: the eight high bits of each measure, then the four low ones.
unfoldable pub read_packet : Bytes → DataPoint → DataPoint × Bytes
read_packet is obs =
    let (temp1, is) = parse 8 16 2 is in
    let (hum1, is) = parse 8 16 2 is in
    let (temp2, is) = parse 8 16 1 is in
    let (hum2, is) = parse 8 16 1 is in
    (
      record obs {
        temperatures = obs.temperatures ++ (temperature_of ((temp1 * 16 + temp2) % 65536) ∷ []);
        humidities = obs.humidities ++ ((pos ((hum1 * 16 + hum2) % 65536) -ℤ pos 250) ∷ []);
      },
      is,
    )

-- `while (length > 0)`, on fuel; none when it runs out.
unfoldable pub read_packets : ℕ → ℕ → Bytes → DataPoint → Option DataPoint
read_packets zero length is obs = if length == 0 then some obs else none
read_packets (suc fuel) length is obs =
    let (next, rest) = read_packet is obs in
    let later = read_packets fuel (minus_size length 6) rest next in
    if length == 0 then some obs else later

abbrev pub validated : Option DataPoint → Option DataPoint
validated none = none
validated (some obs) = some (record obs { valid = true })

abbrev pub read_all : ℕ → Bytes → DataPoint → Option DataPoint
read_all fuel payload obs =
    let (header, is) = parse 8 16 2 payload in
    if ltb 6 (length payload)
    then read_packets fuel (minus_size (length payload) 1) is
        (record obs { offset = offset_of header })
    else read_packets fuel (length payload) payload obs

-- ingest
unfoldable pub ingest : ℕ → Bytes → ℤ → DataPoint → Option DataPoint
ingest fuel payload datetime obs =
    if not (validate_input payload)
    then some (record obs { valid = false })
    else validated (read_all fuel payload (record obs { basetime = datetime }))
