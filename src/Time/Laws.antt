-- ===== src/Time/Laws.antt =====
-- What the settings of a station come to.
use Prim.Native.String.{String}
use meteodata_server.Base.{
  ℕ, suc, zero, ◌+◌, ◌*◌, ◌/◌, ◌%◌, ◌≤◌, ◌≡◌, refl, ◌↔◌, arith, none, List, [], ◌∷◌, length,
  get_elem?,
}
use meteodata_server.Base.Int.{pos, negsuc, ◌+ℤ◌, ◌-ℤ◌, int_laws}
use meteodata_server.Time.{
  DateLib, TimezoneInfo, by_timezone, by_offset, TimeOffseter, TimezoneBuffer, automatic_zone,
  gmt_offset_minutes, prepare, time_offsets, local_seconds, convert_from_local_time,
  convert_to_local_time,
}

get_elem?-none {ℓ} : {A : Type ℓ} (xs : List A) (i : ℕ) → (get_elem? xs i ≡ none) ↔ (length xs ≤ i)
get_elem?-none [] i = ground arith
get_elem?-none (x ∷ xs) zero = ground arith
get_elem?-none (x ∷ xs) (suc i) = ground (arith, get_elem?-none xs i)

automatic_zone_small : (z : ℕ) → 47 ≤ z → automatic_zone z ≡ none
unfolding automatic_zone
automatic_zone_small z h = ground arith

-- `prepare` reads past the end of the table of offsets exactly when the station gives no GMT
-- offset and the index of its zone is 47 or more.
pub prepare_out_of_table :
    (t : TimeOffseter) (buffer : TimezoneBuffer)
    → (prepare t buffer ≡ none) ↔ ((buffer.gmt_or_zone ≡ 0) × (47 ≤ buffer.time_zone))
unfolding prepare
prepare_out_of_table t buffer =
    ground
      (arith, automatic_zone_small buffer.time_zone, get_elem?-none time_offsets buffer.time_zone)

-- A western offset -hhmm (hh hours and mm minutes) is read as the station means it exactly when mm
-- is 0.
pub gmt_offset_minutes_west :
    (n : ℕ)
    → (gmt_offset_minutes (negsuc n) ≡ pos 0 -ℤ pos (suc n / 100 * 60 + suc n % 100))
      ↔ (suc n % 100 ≡ 0)
unfolding gmt_offset_minutes ◌-ℤ◌ ◌+ℤ◌
gmt_offset_minutes_west n = ground arith

module _ (lib : DateLib) where
  -- Station time to POSIX time and back is the identity: always with a fixed offset, and with a
  -- named zone if the local time exists there, that is if the zone maps it back.
  pub to_local-from_local :
      (info : TimezoneInfo) (d m y hour min : ℕ)
      → ((zone : String)
          → info ≡ by_timezone zone
          → lib.zone_to_local zone (lib.zone_to_sys zone (local_seconds lib d m y hour min))
            ≡ local_seconds lib d m y hour min)
      → convert_to_local_time lib info (convert_from_local_time lib info d m y hour min)
        ≡ local_seconds lib d m y hour min
  unfolding convert_from_local_time convert_to_local_time
  to_local-from_local (by_timezone zone) d m y hour min exists = exists zone refl
  to_local-from_local (by_offset o) d m y hour min exists = omega int_laws
