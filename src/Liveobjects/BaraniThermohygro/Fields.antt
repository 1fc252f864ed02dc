-- ===== src/Liveobjects/BaraniThermohygro/Fields.antt =====
-- The fields of a payload packed one after the other, 2, 5, 11, 6, 6, 9, 14, 10, 9, 8 and 8 bits long.
use meteodata_server.Base.{
  ℕ, ◌+◌, ◌*◌, ◌/◌, ◌%◌, ◌<◌, ◌≡◌, [], ◌∷◌, ◌++◌, Bytes, ◌-◌, Option, none, some,
}
use meteodata_server.Base.Int.{ℤ, pos}
use meteodata_server.HexParser.Values.{hex_bytes}

-- The values of the fields.
pub record Fields : Type 0 where
  pub kind : ℕ
  pub battery : ℕ
  pub temperature : ℕ
  pub minimum : ℕ
  pub maximum : ℕ
  pub humidity : ℕ
  pub pressure : ℕ
  pub radiation : ℕ
  pub max_radiation : ℕ
  pub clicks : ℕ
  pub time : ℕ

pub record Fit (f : Fields) : Type 0 where
  pub kind : f.kind < 4
  pub battery : f.battery < 32
  pub temperature : f.temperature < 2048
  pub minimum : f.minimum < 64
  pub maximum : f.maximum < 64
  pub humidity : f.humidity < 512
  pub pressure : f.pressure < 16384
  pub radiation : f.radiation < 1024
  pub max_radiation : f.max_radiation < 512
  pub clicks : f.clicks < 256
  pub time : f.time < 256

-- The ten bytes that are read, and the eleventh.
abbrev read_part : Fields → Bytes
read_part f =
    (f.kind * 64 + f.battery * 2 + f.temperature / 1024)
    ∷ f.temperature / 4 % 256
    ∷ (f.temperature % 4 * 64 + f.minimum)
    ∷ (f.maximum * 4 + f.humidity / 128)
    ∷ (f.humidity % 128 * 2 + f.pressure / 8192)
    ∷ f.pressure / 32 % 256
    ∷ (f.pressure % 32 * 8 + f.radiation / 128)
    ∷ (f.radiation % 128 * 2 + f.max_radiation / 256)
    ∷ f.max_radiation % 256
    ∷ f.clicks
    ∷ []

abbrev pub packed : Fields → Bytes
packed f = hex_bytes (read_part f ++ (f.time ∷ []))

-- The clicks since a counter of 8 bits, which may have wrapped.
abbrev pub fallen : ℕ → Option ℕ → Option ℤ → Option ℤ
fallen clicks none before = before
fallen clicks (some p) before = some (pos ((clicks + 256 - p) % 256))

-- A counter of 8 bits that is recent, or none.
abbrev pub Recent : Option ℕ → Option ℤ → Type 0
Recent none counter = counter ≡ none
Recent (some p) counter = (counter ≡ some (pos p)) × (p < 256)
