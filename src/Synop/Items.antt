-- ===== src/Synop/Items.antt =====
-- What the optional groups of section 1 say, by the tables of the format: each item has a group, and
-- a meaning for the message.
use meteodata_server.Base.{
  ℕ, ◌+◌, ◌*◌, ◌≤◌, ◌<◌, ◌≡◌, ◌≢◌, ◌⊎◌, ◌%◌, Bool, true, false, [], ◌∷◌, ◌++◌, map, some, get_or,
}
use meteodata_server.Base.Int.{pos}
use meteodata_server.Synop.{Text}
use meteodata_server.Synop.Message.{SynopMessage, PrecipitationAmount}
use meteodata_server.Synop.Digits.{digit, digits_3, digits_4, sign, signed}

-- An amount of rain, table 3590: whole millimetres, a trace, or tenths of a millimetre.
pub data Amount : Type 0 where
  millimetres : ℕ → Amount
  trace : Amount
  tenths : ℕ → Amount

abbrev pub amount_code : Amount → ℕ
amount_code (millimetres n) = n
amount_code trace = 990
amount_code (tenths t) = 990 + t

abbrev pub AmountFits : Amount → Type 0
AmountFits (millimetres n) = n < 990
AmountFits trace = Unit {0}
AmountFits (tenths t) = (1 ≤ t) × (t < 10)

-- The hours of the codes of table 4019.
abbrev pub hours : ℕ → ℕ
hours code = get_or (0 ∷ 6 ∷ 12 ∷ 18 ∷ 24 ∷ 1 ∷ 2 ∷ 3 ∷ 9 ∷ 15 ∷ []) code 0

abbrev pub precipitation_of : Amount → ℕ → PrecipitationAmount
precipitation_of (millimetres n) code = record {
  amount = pos (n * 10);
  trace = false;
  duration = pos (hours code);
}
precipitation_of trace code = record { amount = pos 0; trace = true; duration = pos (hours code) }
precipitation_of (tenths t) code = record {
  amount = pos t;
  trace = false;
  duration = pos (hours code);
}

pub data Item : Type 0 where
  temperature : Bool → ℕ → Item
  dew_point : Bool → ℕ → Item
  humidity : ℕ → Item
  station_pressure : ℕ → Item
  sea_pressure : ℕ → Item
  isobaric_surface : ℕ → ℕ → Item
  tendency : ℕ → ℕ → Item
  rain : Amount → ℕ → Item
  weather : ℕ → Item
  cloud_cover : ℕ → ℕ → ℕ → ℕ → Item
  hour : ℕ → Item
  not_known : ℕ → ℕ → ℕ → ℕ → ℕ → Item

-- The first digit of the group.
abbrev pub indicative : Item → ℕ
indicative (temperature negative n) = b'1'
indicative (dew_point negative n) = b'2'
indicative (humidity n) = b'2'
indicative (station_pressure n) = b'3'
indicative (sea_pressure n) = b'4'
indicative (isobaric_surface surface n) = b'4'
indicative (tendency a n) = b'5'
indicative (rain amount code) = b'6'
indicative (weather n) = b'7'
indicative (cloud_cover n l k h) = b'8'
indicative (hour n) = b'9'
indicative (not_known c p q r s) = c

abbrev pub body : Item → Text
body (temperature negative n) = sign negative ∷ map digit (digits_3 n)
body (dew_point negative n) = sign negative ∷ map digit (digits_3 n)
body (humidity n) = b'9' ∷ map digit (digits_3 n)
body (station_pressure n) = map digit (digits_4 (n % 10000))
body (sea_pressure n) = map digit (digits_4 (n % 10000))
body (isobaric_surface surface n) = digit surface ∷ map digit (digits_3 n)
body (tendency a n) = digit a ∷ map digit (digits_3 n)
body (rain amount code) = map digit (digits_3 (amount_code amount) ++ (code ∷ []))
body (weather n) = map digit (digits_4 n)
body (cloud_cover n l k h) = map digit (n ∷ l ∷ k ∷ h ∷ [])
body (hour n) = map digit (digits_4 n)
body (not_known c p q r s) = p ∷ q ∷ r ∷ s ∷ []

abbrev pub group : Item → Text
group i = indicative i ∷ body i

-- What can be written: numbers of three digits, pressures in tenths of hPa of which the thousands of hPa
-- can be left out, at the sea with a first digit 0 or 9. A group that is not known has a '/'
-- among its four characters, and does not begin as the mark of section 2.
abbrev pub Fits : Item → Type 0
Fits (temperature negative n) = n < 1000
Fits (dew_point negative n) = n < 1000
Fits (humidity n) = n < 1000
Fits (station_pressure n) = (5000 ≤ n) × (n < 15000)
Fits (sea_pressure n) = (9000 ≤ n) × (n < 11000)
Fits (isobaric_surface surface n) = (1 ≤ surface) × (surface < 9) × (n < 1000)
Fits (tendency a n) = (a < 10) × (n < 1000)
Fits (rain amount code) = AmountFits amount × (code < 10)
Fits (weather n) = n < 10000
Fits (cloud_cover n l k h) = (n < 10) × (l < 10) × (k < 10) × (h < 10)
Fits (hour n) = n < 10000
Fits (not_known c p q r s) =
    ((p ≡ b'/') ⊎ (q ≡ b'/') ⊎ (r ≡ b'/') ⊎ (s ≡ b'/')) × ((c ≢ b'2') ⊎ (p ≢ b'2') ⊎ (q ≢ b'2'))

-- What a decoder of the format makes of an item.
abbrev pub meaning : Item → SynopMessage → SynopMessage
meaning (temperature negative n) m = record m { mean_temperature = some (signed negative n) }
meaning (dew_point negative n) m = record m { dew_point = some (signed negative n) }
meaning (humidity n) m = record m { relative_humidity = some (pos n) }
meaning (station_pressure n) m = record m { pressure_at_station = some (pos n) }
meaning (sea_pressure n) m = record m { pressure_at_sea_level = some (pos n) }
meaning (isobaric_surface surface n) m = record m {
  isobaric_surface_potential =
      some (record { standard_isobaric_surface = digit surface; geopotential = pos n });
}
meaning (tendency a n) m = record m {
  pressure_tendency = some (record { description = digit a; amount = pos n });
}
meaning (rain amount code) m = record m {
  precipitation = m.precipitation ++ (precipitation_of amount code ∷ []);
}
meaning (weather n) m = m
meaning (cloud_cover n l k h) m = record m {
  low_or_medium_cloud_cover = some (digit n);
  low_clouds = some (digit l);
  medium_clouds = some (digit k);
  high_clouds = some (digit h);
}
meaning (hour n) m = m
meaning (not_known c p q r s) m = m
