-- ===== src/Liveobjects/Oy1110/Packets.antt =====
-- One packet is decoded; what is longer is refused, or read for more than 2^61 rounds.
use meteodata_server.Base.{
  ℕ, zero, suc, ◌+◌, ◌*◌, ◌/◌, ◌%◌, ◌<◌, ◌≡◌, refl, ap, ◌∙◌, arith, true, [], ◌∷◌, ◌++◌, Bytes,
  some,
}
use meteodata_server.Base.Int.{ℤ, pos, ◌-ℤ◌}
use meteodata_server.HexParser.{parse}
use meteodata_server.HexParser.Values.{hex_digit, parse-digits}
use meteodata_server.Liveobjects.Thpllora.Fields.{is_hex-hex_digit}
use meteodata_server.Liveobjects.Oy1110.{
  DataPoint, validate_input, temperature_of, read_packet, read_packets, validated, ingest,
}

parse_byte :
    (n : ℕ) (rest : Bytes)
    → n < 256
    → parse 8 16 2 (hex_digit (n / 16) ∷ hex_digit (n % 16) ∷ rest) ≡ (n, rest)
parse_byte n rest h =
    parse-digits 8 (n / 16 ∷ n % 16 ∷ []) rest (omega (arith, h))
    ∙ ap (λ v. (v, rest)) (omega arith)

parse_digit : (d : ℕ) (rest : Bytes) → d < 16 → parse 8 16 1 (hex_digit d ∷ rest) ≡ (d, rest)
parse_digit d rest h =
    parse-digits 8 (d ∷ []) rest (omega (arith, h)) ∙ ap (λ v. (v, rest)) (omega arith)

joined : (n : ℕ) → n < 4096 → (n / 16 * 16 + n % 16) % 65536 ≡ n
joined n h = omega arith

temperature_of_lem : (temp : ℕ) → temp < 4096 → temperature_of temp ≡ pos temp -ℤ pos 800
unfolding ◌-ℤ◌
temperature_of_lem temp h = ground arith

-- The six characters of one packet.
abbrev pub packet : ℕ → ℕ → Bytes
packet temp hum =
    hex_digit (temp / 16 / 16)
    ∷ hex_digit (temp / 16 % 16)
    ∷ hex_digit (hum / 16 / 16)
    ∷ hex_digit (hum / 16 % 16)
    ∷ hex_digit (temp % 16)
    ∷ hex_digit (hum % 16)
    ∷ []

read_packet-packet :
    (temp hum : ℕ) (obs : DataPoint)
    → temp < 4096
    → hum < 4096
    → read_packet (packet temp hum) obs ≡ (
      record obs {
        temperatures = obs.temperatures ++ ((pos temp -ℤ pos 800) ∷ []);
        humidities = obs.humidities ++ ((pos hum -ℤ pos 250) ∷ []);
      },
      [],
    )
unfolding read_packet
read_packet-packet temp hum obs ht hh =
    rw
      (
        parse_byte (temp / 16)
            (hex_digit (hum / 16 / 16)
              ∷ hex_digit (hum / 16 % 16)
              ∷ hex_digit (temp % 16)
              ∷ hex_digit (hum % 16)
              ∷ [])
            (omega arith),
        parse_byte (hum / 16) (hex_digit (temp % 16) ∷ hex_digit (hum % 16) ∷ []) (omega arith),
        parse_digit (temp % 16) (hex_digit (hum % 16) ∷ []) (omega arith),
        parse_digit (hum % 16) [] (omega arith),
        joined temp ht,
        joined hum hh,
        temperature_of_lem temp ht,
      )
      refl

packet_valid : (temp hum : ℕ) → temp < 4096 → hum < 4096 → validate_input (packet temp hum) ≡ true
packet_valid temp hum ht hh =
    rw
      (
        is_hex-hex_digit (temp / 16 / 16) (omega arith),
        is_hex-hex_digit (temp / 16 % 16) (omega arith),
        is_hex-hex_digit (hum / 16 / 16) (omega arith),
        is_hex-hex_digit (hum / 16 % 16) (omega arith),
        is_hex-hex_digit (temp % 16) (omega arith),
        is_hex-hex_digit (hum % 16) (omega arith),
      )
      refl

read_packets-end : (fuel : ℕ) (is : Bytes) (obs : DataPoint) → read_packets fuel 0 is obs ≡ some obs
unfolding read_packets
read_packets-end zero is obs = refl
read_packets-end (suc fuel) is obs = refl

read_packets-packet :
    (fuel temp hum : ℕ) (obs : DataPoint)
    → read_packets (suc fuel) 6 (packet temp hum) obs ≡ some (read_packet (packet temp hum) obs).0
unfolding read_packets
read_packets-packet fuel temp hum obs = read_packets-end fuel _ _

-- A payload of one packet is decoded in one round: the temperature is 80 degrees and the humidity 25
-- percents below what the two fields of 12 bits hold, in tenths.
pub ingest-packet :
    (fuel temp hum : ℕ) (datetime : ℤ) (obs : DataPoint)
    → temp < 4096
    → hum < 4096
    → ingest (suc fuel) (packet temp hum) datetime obs
      ≡ some (record obs {
        valid = true;
        basetime = datetime;
        temperatures = obs.temperatures ++ ((pos temp -ℤ pos 800) ∷ []);
        humidities = obs.humidities ++ ((pos hum -ℤ pos 250) ∷ []);
      })
unfolding ingest
ingest-packet fuel temp hum datetime obs ht hh =
    let begun : DataPoint = record obs { basetime = datetime } in
    rw (packet_valid temp hum ht hh) (
      ap validated (read_packets-packet fuel temp hum begun)
      ∙ ap (λ p. validated (some p.0)) (read_packet-packet temp hum begun ht hh))
