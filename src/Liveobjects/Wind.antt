-- ===== src/Liveobjects/Wind.antt =====
-- What the decoders of the anemometers MeteoWind share. A speed is the frequency of its pulses, in steps
-- of 0.02 Hz; where the code has 0 km/h without a conversion, it is calm.
use meteodata_server.Base.{
  ℕ, suc, ◌+◌, ◌-◌, ◌*◌, ◌%◌, Bool, not, ◌&&◌, Bytes, ltb, ◌==◌, if◌then◌else◌, get_or,
}
use meteodata_server.Base.Int.{ℤ, pos, negsuc, ◌+ℤ◌, ◌-ℤ◌, ltb_ℤ}

pub data WindSpeed : Type 0 where
  missing calm : WindSpeed
  pulses : ℕ → WindSpeed

abbrev pub byte : Bytes → ℕ → ℕ
byte raw i = get_or raw i 0

abbrev pub speed_unless : Bool → ℕ → WindSpeed
speed_unless absent n = if absent then missing else pulses n

abbrev pub speed_or_calm : Bool → ℕ → ℕ → WindSpeed
speed_or_calm absent field n = if absent then missing else if field == 0 then calm else pulses n

-- `%` on int has the sign of its left side.
abbrev pub trunc_mod : ℤ → ℕ → ℤ
trunc_mod (pos n) k = pos (n % k)
trunc_mod (negsuc n) k = pos 0 -ℤ pos (suc n % k)

-- A direction with the offset that is kept for the station, or -1 if it is missing.
abbrev pub direction_of : Bool → ℕ → ℤ → ℤ
direction_of absent field offset = if absent then negsuc 0 else trunc_mod (pos field +ℤ offset) 360

-- 33 + (index % 10) * 2 - (index % 10 > 4) * 10, in tenths of a volt.
abbrev pub new_battery : ℕ → ℤ
new_battery index = pos (33 + index % 10 * 2 - (if ltb 4 (index % 10) then 10 else 0))

-- The voltage known after a message, from the one known before, and whether the voltage of the object, which
-- the code tests instead of the bit of the battery, is other than 0.
unfoldable pub known_battery_after : Bool → ℕ → ℤ → ℤ
known_battery_after powered index known =
    if powered && ltb_ℤ known (new_battery index)
    then new_battery index +ℤ pos 1
    else if not powered && ltb_ℤ (new_battery index) known
    then new_battery index -ℤ pos 1
    else known

-- std::clamp
abbrev pub clamp : ℤ → ℤ → ℤ → ℤ
clamp value low high = if ltb_ℤ value low then low else if ltb_ℤ high value then high else value

abbrev pub voltage_of : ℤ → ℤ
voltage_of known = clamp known (pos 32) (pos 42)

-- The time of the strongest wind, from the start of the ten minutes.
abbrev pub wind_time : ℤ → ℕ → ℤ
wind_time start t = start -ℤ pos 600 +ℤ pos (t * 5)
