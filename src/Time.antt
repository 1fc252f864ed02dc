-- ===== src/Time.antt =====
-- Conversions between station time and POSIX time: `TimeOffseter` (src/time_offseter.h and
-- src/time_offseter.cpp). Times are seconds since the Epoch.
pub mod Laws
use Prim.Native.String.{String}
use text.Mathlib.Text.{◌==◌ as str_eq}
use meteodata_server.Base.{
  ℕ, ◌+◌, ◌*◌, ◌/◌, ◌%◌, Bool, false, ◌&&◌, Option, none, some, List, [], ◌∷◌, ◌==◌, if◌then◌else◌,
  get_elem?,
}
use meteodata_server.Base.Int.{ℤ, pos, negsuc, ◌+ℤ◌, ◌-ℤ◌, ◌*ℤ◌}

-- What the program uses of the date library: the serial number of a civil date, the civil date
-- (year, month, day) of a serial number, and the conversions of a named zone, where
-- `zone_to_sys` resolves an ambiguous local time by `date::choose::latest`.
pub record DateLib : Type 0 where
  pub days_of_civil : ℕ → ℕ → ℕ → ℤ
  pub civil_of_days : ℤ → ℕ × ℕ × ℕ
  pub zone_to_sys : String → ℤ → ℤ
  pub zone_to_local : String → ℤ → ℤ

-- The union `_timezoneInfo` with its tag `_byTimezone`; an offset is in minutes.
pub data TimezoneInfo : Type 0 where
  by_timezone : String → TimezoneInfo
  by_offset : ℤ → TimezoneInfo

pub record TimeOffseter : Type 0 where
  pub timezone_info : TimezoneInfo
  pub latitude : ℤ
  pub longitude : ℤ
  pub elevation : ℤ
  pub measure_step : ℕ
  pub may_store_inside_measurements : Bool

-- VantagePro2TimezoneBuffer
pub record TimezoneBuffer : Type 0 where
  pub time_zone : ℕ
  pub manual_dst : ℕ
  pub active_dst : ℕ
  pub gmt_offset : ℤ
  pub gmt_or_zone : ℕ

-- Offsets of hours and minutes, in minutes.
abbrev east : ℕ → ℕ → ℤ
east hours minutes = pos (hours * 60 + minutes)

abbrev west : ℕ → ℕ → ℤ
west hours minutes = pos 0 -ℤ pos (hours * 60 + minutes)

-- The table `timeOffsets` of `vantageTimezoneIndex2Offet`.
abbrev pub time_offsets : List ℤ
time_offsets =
    west 12 0
    ∷ west 11 0
    ∷ west 10 0
    ∷ west 9 0
    ∷ west 8 0
    ∷ west 7 0
    ∷ west 6 0
    ∷ west 6 0
    ∷ west 6 0
    ∷ west 5 0
    ∷ west 5 0
    ∷ west 4 0
    ∷ west 4 0
    ∷ west 3 30
    ∷ west 3 0
    ∷ west 3 0
    ∷ west 2 0
    ∷ west 1 0
    ∷ east 0 0
    ∷ east 0 0
    ∷ east 1 0
    ∷ east 1 0
    ∷ east 1 0
    ∷ east 2 0
    ∷ east 2 0
    ∷ east 2 0
    ∷ east 2 0
    ∷ east 2 0
    ∷ east 3 0
    ∷ east 3 0
    ∷ east 3 30
    ∷ east 4 0
    ∷ east 4 30
    ∷ east 5 0
    ∷ east 5 30
    ∷ east 6 0
    ∷ east 7 0
    ∷ east 8 0
    ∷ east 8 0
    ∷ east 9 0
    ∷ east 9 30
    ∷ east 9 30
    ∷ east 10 0
    ∷ east 10 0
    ∷ east 11 0
    ∷ east 12 0
    ∷ east 12 0
    ∷ []

-- vantageTimezoneIndex2Offet; `none` is a read past the end of the table, which the code does not
-- guard against.
unfoldable pub vantage_timezone_index_to_offset : ℕ → Option ℤ
vantage_timezone_index_to_offset index = get_elem? time_offsets index

-- The ladder of `prepare` over `buffer.timeZone` in automatic mode.
unfoldable pub automatic_zone : ℕ → Option String
automatic_zone z =
    if z == 4
    then some "America/Tijuana"
    else if z == 5
    then some "America/Denver"
    else if z == 6
    then some "America/Chicago"
    else if z == 7
    then some "America/Mexico_City"
    else if z == 10
    then some "America/New_York"
    else if z == 11
    then some "America/Halifax"
    else if z == 13
    then some "America/St_Johns"
    else if z == 18
    then some "Europe/London"
    else if z == 20
    then some "Europe/Berlin"
    else if z == 21
    then some "Europe/Paris"
    else if z == 22
    then some "Europe/Prague"
    else if z == 23
    then some "Europe/Athens"
    else if z == 25
    then some "Europe/Bucharest"
    else none

-- `int hours = buffer.gmtOffset / 100; int minutes = |buffer.gmtOffset| % 100;`, in minutes. The
-- division of C rounds to 0.
unfoldable pub gmt_offset_minutes : ℤ → ℤ
gmt_offset_minutes (pos n) = pos (n / 100 * 60 + n % 100)
gmt_offset_minutes (negsuc n) = (pos 0 -ℤ pos ((n + 1) / 100 * 60)) +ℤ pos ((n + 1) % 100)

abbrev set_offset : TimeOffseter → Option ℤ → Option TimeOffseter
set_offset t none = none
set_offset t (some o) = some (record t { timezone_info = by_offset o })

-- TimeOffseter::prepare; `none` is the read past the end of the table.
unfoldable pub prepare : TimeOffseter → TimezoneBuffer → Option TimeOffseter
unfolding vantage_timezone_index_to_offset automatic_zone gmt_offset_minutes
prepare t buffer =
    if buffer.gmt_or_zone == 0 && buffer.manual_dst == 0
    then elim (automatic_zone buffer.time_zone) [
      | some zone ↦ some (record t { timezone_info = by_timezone zone })
      | none ↦ set_offset t (vantage_timezone_index_to_offset buffer.time_zone)
    ]
    else if buffer.gmt_or_zone == 0
    then set_offset t (vantage_timezone_index_to_offset buffer.time_zone)
    else set_offset t (some (gmt_offset_minutes buffer.gmt_offset))

pub data PredefinedTimezone : Type 0 where
  utc france new_caledonia sorriso : PredefinedTimezone

-- getTimeOffseterFor(PredefinedTimezone): what is set of the new object.
unfoldable pub timezone_info_for : PredefinedTimezone → TimezoneInfo
timezone_info_for utc = by_offset (pos 0)
timezone_info_for france = by_timezone "Europe/Paris"
timezone_info_for new_caledonia = by_timezone "Pacific/Noumea"
timezone_info_for sorriso = by_timezone "America/Cuiaba"

-- usesUTC
unfoldable pub uses_utc : TimezoneInfo → Bool
uses_utc (by_timezone zone) = str_eq zone "UTC"
uses_utc (by_offset (pos n)) = n == 0
uses_utc (by_offset (negsuc n)) = false

module _ (lib : DateLib) where
  -- `local_days(day(d) / m / y) + hours(h) + minutes(min)`, in seconds.
  abbrev pub local_seconds : ℕ → ℕ → ℕ → ℕ → ℕ → ℤ
  local_seconds d m y hour min =
      lib.days_of_civil y m d *ℤ pos 86400 +ℤ pos (hour * 3600 + min * 60)

  -- convertFromLocalTime(d, m, y, h, min)
  unfoldable pub convert_from_local_time : TimezoneInfo → ℕ → ℕ → ℕ → ℕ → ℕ → ℤ
  convert_from_local_time (by_timezone zone) d m y hour min =
      lib.zone_to_sys zone (local_seconds d m y hour min)
  convert_from_local_time (by_offset o) d m y hour min = local_seconds d m y hour min -ℤ o *ℤ pos 60

  -- convertToLocalTime
  unfoldable pub convert_to_local_time : TimezoneInfo → ℤ → ℤ
  convert_to_local_time (by_timezone zone) time = lib.zone_to_local zone time
  convert_to_local_time (by_offset o) time = time +ℤ o *ℤ pos 60
