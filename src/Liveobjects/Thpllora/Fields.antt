-- ===== src/Liveobjects/Thpllora/Fields.antt =====
-- A payload written digit by digit is decoded into the fields it was written from.
use meteodata_server.Base.{
  ℕ, ◌+◌, ◌%◌, ◌^◌, ◌<◌, ◌≡◌, ◌∙◌, refl, ap, sym, arith, List, [], ◌∷◌, ◌++◌, Option, true, Bytes,
  length, map, ◌/◌, ◌&&◌, ◌==◌, Bool, none, some, if◌then◌else◌,
}
use meteodata_server.Base.Int.{ℤ, pos, ◌-ℤ◌}
use meteodata_server.HexParser.{parse}
use meteodata_server.HexParser.Values.{hex_digit, number, IsDigits, parse-digits}
use meteodata_server.Liveobjects.{validate_input, all_hex, is_hex}
use meteodata_server.Liveobjects.Thpllora.{DataPoint, Lookup, ingest, decode_temperature}

-- The text of the digits of a payload without wind.
abbrev pub payload : List ℕ → List ℕ → List ℕ → List ℕ → List ℕ → Bytes
payload battery rainrate total temp hum =
    map hex_digit battery
    ++ (map hex_digit rainrate
        ++ (map hex_digit total ++ (map hex_digit temp ++ (map hex_digit hum ++ []))))

pub is_hex-hex_digit : (d : ℕ) → d < 16 → is_hex (hex_digit d) ≡ true
is_hex-hex_digit d h = ground arith

all_hex-digits :
    (ds : List ℕ) (rest : Bytes)
    → IsDigits ds
    → all_hex rest ≡ true
    → all_hex (map hex_digit ds ++ rest) ≡ true
all_hex-digits [] rest h r = r
all_hex-digits (d ∷ ds) rest h r = rw (is_hex-hex_digit d h.0, all_hex-digits ds rest h.1 r) refl

length-digits :
    (ds : List ℕ) (rest : Bytes) → length (map hex_digit ds ++ rest) ≡ length ds + length rest
length-digits [] rest = omega arith
length-digits (d ∷ ds) rest = omega (arith, length-digits ds rest)

-- A 16-bit number in two's complement.
abbrev pub twos_complement : ℕ → ℤ
twos_complement n = if n / 32768 == 0 then pos n else pos n -ℤ pos 65536

abbrev pub sensor_missing : ℕ → ℕ → Bool
sensor_missing temp hum = temp == 65535 && hum == 65535

decode_temperature_lem :
    (temp hum : ℕ)
    → temp < 65536
    → decode_temperature temp hum
      ≡ (if sensor_missing temp hum then none else some (twos_complement temp))
unfolding decode_temperature ◌-ℤ◌
decode_temperature_lem temp hum h = ground arith

-- A number written with `n` digits.
abbrev pub IsField : ℕ → List ℕ → Type 0
IsField n ds = IsDigits ds × (length ds ≡ n)

parse_field :
    (w n : ℕ) (ds : List ℕ) (rest : Bytes)
    → IsField n ds
    → parse w 16 n (map hex_digit ds ++ rest) ≡ (number ds % 2 ^ w, rest)
parse_field w n ds rest h =
    ap (λ k. parse w 16 k (map hex_digit ds ++ rest)) (sym h.1) ∙ parse-digits w ds rest h.0

module _ (battery rainrate total temp hum : List ℕ) (b : IsField 4 battery) (r : IsField 4 rainrate)
    (t : IsField 8 total) (m : IsField 4 temp) (h : IsField 4 hum) where
  length-payload : length (payload battery rainrate total temp hum) ≡ 24
  length-payload = omega (
    arith,
    length-digits hum [],
    length-digits temp (map hex_digit hum ++ []),
    length-digits total (map hex_digit temp ++ (map hex_digit hum ++ [])),
    length-digits rainrate
        (map hex_digit total ++ (map hex_digit temp ++ (map hex_digit hum ++ []))),
    length-digits battery (
        map hex_digit rainrate
        ++ (map hex_digit total ++ (map hex_digit temp ++ (map hex_digit hum ++ [])))),
    b.1,
    r.1,
    t.1,
    m.1,
    h.1,
  )

  payload_valid :
      validate_input (payload battery rainrate total temp hum) (24 ∷ 32 ∷ 34 ∷ []) ≡ true
  unfolding validate_input
  payload_valid =
      rw
        (
          length-payload,
          all_hex-digits battery _ b.0 (
              all_hex-digits rainrate _ r.0 (
                all_hex-digits total _ t.0
                  (all_hex-digits temp _ m.0 (all_hex-digits hum [] h.0 refl)))),
        )
        refl

  -- A payload without wind, each of whose fields is written with its digits, is valid and decoded into
  -- the values of the fields, each cut to 16 bits, the counter of the rain gauge included, although
  -- it is sent on 32 bits; the rate of the rain is missing when it is 0x7FFF, the temperature, in
  -- two's complement, and the humidity are missing when both have all their bits set; the wind is
  -- left as it was.
  pub ingest-payload :
      (db : Lookup) (forced : Option ℤ) (datetime : ℤ) (obs : DataPoint)
      → let obs' = ingest db forced (payload battery rainrate total temp hum) datetime obs in
        (obs'.valid ≡ true)
        × (obs'.time ≡ datetime)
        × (obs'.battery ≡ number battery % 2 ^ 16)
        × (obs'.total_pulses ≡ number total % 2 ^ 16)
        × (obs'.rainrate
            ≡ (if number rainrate % 2 ^ 16 == 32767 then none else some (number rainrate % 2 ^ 16)))
        × (obs'.temperature ≡ (
            if sensor_missing (number temp % 2 ^ 16) (number hum % 2 ^ 16)
            then none
            else some (twos_complement (number temp % 2 ^ 16))))
        × (obs'.humidity ≡ (
            if sensor_missing (number temp % 2 ^ 16) (number hum % 2 ^ 16)
            then none
            else some (number hum % 2 ^ 16)))
        × (obs'.wind_speed ≡ obs.wind_speed)
        × (obs'.gust_speed ≡ obs.gust_speed)
        × (obs'.wind_dir ≡ obs.wind_dir)
  unfolding ingest
  ingest-payload db forced datetime obs =
      rw
        (
          payload_valid,
          length-payload,
          parse_field 16 4 battery
              (map hex_digit rainrate
                ++ (map hex_digit total ++ (map hex_digit temp ++ (map hex_digit hum ++ []))))
              b,
          parse_field 16 4 rainrate
              (map hex_digit total ++ (map hex_digit temp ++ (map hex_digit hum ++ []))) r,
          parse_field 16 8 total (map hex_digit temp ++ (map hex_digit hum ++ [])) t,
          parse_field 16 4 temp (map hex_digit hum ++ []) m,
          parse_field 16 4 hum [] h,
          decode_temperature_lem (number temp % 2 ^ 16) (number hum % 2 ^ 16) (omega arith),
        )
        (refl, refl, refl, refl, refl, refl, refl, refl, refl, refl)
