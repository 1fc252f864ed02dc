-- ===== src/Synop/Extras.antt =====
-- What the groups of section 3 say, by the tables of the format: an item has one group or more.
use meteodata_server.Base.{
  ℕ, ◌-◌, ◌*◌, ◌/◌, ◌%◌, ◌≤◌, ◌<◌, Bool, true, false, List, [], ◌∷◌, ◌++◌, map, some, ltb, leb,
  ◌==◌, if◌then◌else◌,
}
use meteodata_server.Base.Int.{ℤ, pos}
use meteodata_server.Synop.{Text}
use meteodata_server.Synop.Message.{SynopMessage, Radiations, Range}
use meteodata_server.Synop.Digits.{digit, digits_2, digits_3, digits_4, sign, signed}
use meteodata_server.Synop.Items.{Amount, AmountFits, amount_code, precipitation_of}

-- The radiation that is given with a duration of sunshine.
pub data Radiation : Type 0 where
  net : Bool → ℕ → Radiation
  global diffused downward upward short : ℕ → Radiation

abbrev pub radiation_group : Radiation → Text
radiation_group (net negative n) = sign negative ∷ map digit (digits_4 n)
radiation_group (global n) = b'2' ∷ map digit (digits_4 n)
radiation_group (diffused n) = b'3' ∷ map digit (digits_4 n)
radiation_group (downward n) = b'4' ∷ map digit (digits_4 n)
radiation_group (upward n) = b'5' ∷ map digit (digits_4 n)
radiation_group (short n) = b'6' ∷ map digit (digits_4 n)

abbrev pub irradiated : Radiation → ℤ → Radiations → Radiations
irradiated (net negative n) value r = record r { net = some value }
irradiated (global n) value r = record r { global_solar = some (pos n) }
irradiated (diffused n) value r = record r { diffused_solar = some (pos n) }
irradiated (downward n) value r = record r { downward_long_wave = some (pos n) }
irradiated (upward n) value r = record r { upward_long_wave = some (pos n) }
irradiated (short n) value r = record r { short_wave = some (pos n) }

-- The net radiation of the last 24 hours is read with its sign. That of the last hour is not: its first
-- digit is taken for the sign.
abbrev pub net_24 : Radiation → ℤ
net_24 (net negative n) = signed negative n
net_24 other = pos 0

abbrev pub net_hour : Radiation → ℤ
net_hour (net negative n) = signed (n / 1000 == 1) (n % 1000)
net_hour other = pos 0

pub data Extra : Type 0 where
  max_temperature : Bool → ℕ → Extra
  min_temperature : Bool → ℕ → Extra
  bare_ground : ℕ → Bool → ℕ → Extra
  snowy_ground : ℕ → ℕ → Extra
  sunny_day : ℕ → Radiation → Extra
  sunny_hour : ℕ → Radiation → Extra
  rain : Amount → ℕ → Extra
  rain_24 : ℕ → Extra
  cloud_layer : ℕ → ℕ → ℕ → Extra
  gust_10 : ℕ → Extra
  gust_over : ℕ → ℕ → Extra

abbrev pub indicative : Extra → ℕ
indicative (max_temperature negative n) = b'1'
indicative (min_temperature negative n) = b'2'
indicative (bare_ground e negative n) = b'3'
indicative (snowy_ground e n) = b'4'
indicative (sunny_day n r) = b'5'
indicative (sunny_hour n r) = b'5'
indicative (rain amount code) = b'6'
indicative (rain_24 n) = b'7'
indicative (cloud_layer n c h) = b'8'
indicative (gust_10 n) = b'9'
indicative (gust_over d n) = b'9'

abbrev pub body : Extra → Text
body (max_temperature negative n) = sign negative ∷ map digit (digits_3 n)
body (min_temperature negative n) = sign negative ∷ map digit (digits_3 n)
body (bare_ground e negative n) = digit e ∷ sign negative ∷ map digit (digits_2 n)
body (snowy_ground e n) = digit e ∷ map digit (digits_3 n)
body (sunny_day n r) = b'5' ∷ map digit (digits_3 n)
body (sunny_hour n r) = b'5' ∷ b'3' ∷ map digit (digits_2 n)
body (rain amount code) = map digit (digits_3 (amount_code amount) ++ (code ∷ []))
body (rain_24 n) = map digit (digits_4 n)
body (cloud_layer n c h) = digit n ∷ digit c ∷ map digit (digits_2 h)
body (gust_10 n) = b'1' ∷ b'0' ∷ map digit (digits_2 n)
body (gust_over d n) = b'0' ∷ b'7' ∷ map digit (digits_2 d)

-- The groups after the first, and after them.
abbrev pub following : Extra → List Text → List Text
following (sunny_day n r) more = radiation_group r ∷ more
following (sunny_hour n r) more = radiation_group r ∷ more
following (gust_over d n) more =
    if ltb n 99
    then (b'9' ∷ b'1' ∷ b'1' ∷ map digit (digits_2 n)) ∷ more
    else (b'9' ∷ b'1' ∷ b'1' ∷ b'9' ∷ b'9' ∷ []) ∷ (b'0' ∷ b'0' ∷ map digit (digits_3 n)) ∷ more
following other more = more

abbrev pub first_group : Extra → Text
first_group i = indicative i ∷ body i

abbrev pub groups : List Extra → List Text → List Text
groups [] rest = rest
groups (i ∷ is) rest = first_group i ∷ following i (groups is rest)

abbrev pub RadiationFits : Radiation → Type 0
RadiationFits (net negative n) = n < 10000
RadiationFits (global n) = n < 10000
RadiationFits (diffused n) = n < 10000
RadiationFits (downward n) = n < 10000
RadiationFits (upward n) = n < 10000
RadiationFits (short n) = n < 10000

abbrev pub Fits : Extra → Type 0
Fits (max_temperature negative n) = n < 1000
Fits (min_temperature negative n) = n < 1000
Fits (bare_ground e negative n) = (e < 10) × (n < 100)
Fits (snowy_ground e n) = (e < 10) × (n < 1000)
Fits (sunny_day n r) = (n < 300) × RadiationFits r
Fits (sunny_hour n r) = (n < 100) × RadiationFits r
Fits (rain amount code) = AmountFits amount × (code < 10)
Fits (rain_24 n) = n < 10000
Fits (cloud_layer n c h) = (n < 10) × (c < 10) × (1 ≤ h) × (h < 89)
Fits (gust_10 n) = n < 100
Fits (gust_over d n) = (d ≤ 60) × (n < 1000)

-- The base of a layer of clouds, in metres: the interval that ends at the height of the code in table
-- 1677, and begins at that of the code before. The table does not use the codes 51 to 55.
abbrev pub layer_base : ℕ → Range
layer_base h =
    if leb h 50
    then record {
      begin = some (pos (30 * (h - 1)));
      end = some (pos (30 * h));
      begin_included = false;
      end_included = true;
    }
    else if leb h 80
    then record {
      begin = some (pos (300 * (h - 51)));
      end = some (pos (300 * (h - 50)));
      begin_included = false;
      end_included = true;
    }
    else record {
      begin = some (pos (1500 * (h - 75)));
      end = some (pos (1500 * (h - 74)));
      begin_included = false;
      end_included = true;
    }

-- The base that is read: that of the table, but for the codes 81 to 88, whose heights are taken to grow by
-- 500 m from 10000 m instead of by 1500 m from 9000 m.
abbrev pub layer_read : ℕ → Range
layer_read h = if leb h 80 then layer_base h else record {
  begin = some (pos (500 * (h - 61)));
  end = some (pos (500 * (h - 60)));
  begin_included = false;
  end_included = true;
}

-- What a message keeps of an item. The depth of snow is not kept, and the net radiation of the last hour
-- and the layers of the codes 81 to 88 are those that are read.
abbrev pub meaning : Extra → SynopMessage → SynopMessage
meaning (max_temperature negative n) m = record m { max_temperature = some (signed negative n) }
meaning (min_temperature negative n) m = record m { min_temperature = some (signed negative n) }
meaning (bare_ground e negative n) m = record m {
  ground_state_without_snow_or_ice = some (digit e);
  min_soil_temperature = some (signed negative n);
}
meaning (snowy_ground e n) m = record m { ground_state_with_snow_or_ice = some (digit e) }
meaning (sunny_day n r) m = record m {
  minutes_of_sunshine_last_day = some (pos (n * 6));
  last_24_hours = irradiated r (net_24 r) m.last_24_hours;
}
meaning (sunny_hour n r) m = record m {
  minutes_of_sunshine_last_hour = some (pos (n * 6));
  last_hour = irradiated r (net_hour r) m.last_hour;
}
meaning (rain amount code) m = record m {
  precipitation = m.precipitation ++ (precipitation_of amount code ∷ []);
}
meaning (rain_24 n) m = record m {
  precipitation =
      m.precipitation
      ++ (record {
        amount = pos (if n == 9999 then 0 else n);
        trace = (n == 9999);
        duration = pos 24;
      }
          ∷ []);
}
meaning (cloud_layer n c h) m = record m {
  height_of_base_of_clouds =
      m.height_of_base_of_clouds
      ++ (record {
        genus = digit c;
        direction = b'9';
        distance = layer_read h;
        nebulosity = digit n;
      }
          ∷ []);
}
meaning (gust_10 n) m = record m {
  gust_observations = m.gust_observations ++ (record { speed = pos n; duration = pos 10 } ∷ []);
}
meaning (gust_over d n) m = record m {
  gust_observations =
      m.gust_observations ++ (record { speed = pos n; duration = pos (d * 6) } ∷ []);
}
