-- ===== src/Davis/Params.antt =====
-- The parameters of the two requests that carry some: `buildArchiveRequestParams` and
-- `buildSettimeParams` (src/davis/vantagepro2_connector.cpp). A packed structure is the list of its
-- bytes, the low byte of a word first.
pub mod RoundTrip
use meteodata_server.Base.{ℕ, ◌+◌, ◌-◌, ◌*◌, ◌/◌, ◌%◌, ◌^◌, [], ◌∷◌, Bytes}
use meteodata_server.Base.Int.{ℤ, floor_div, floor_mod}
use meteodata_server.Time.{DateLib, TimezoneInfo, convert_to_local_time}
use meteodata_server.Davis.Crc.{compute_crc}

-- A uint16_t in two bytes.
abbrev pub word_bytes : ℕ → Bytes
word_bytes w = (w % 256) ∷ (w / 256 % 256) ∷ []

-- `((y - 2000) << 9) + (m << 5) + d`, stored in a uint16_t: before 2000 the shift is of a negative
-- number, which wraps.
unfoldable pub archive_date : ℕ → ℕ → ℕ → ℕ
archive_date y m d = (y * 512 + 2 ^ 32 - 2000 * 512 + m * 32 + d) % 65536

module _ (lib : DateLib) (info : TimezoneInfo) where
  -- `date` and `time` of ArchiveRequestParams
  unfoldable pub archive_request_date : ℤ → ℕ
  archive_request_date time =
      let (y, m, d) = lib.civil_of_days (floor_div (convert_to_local_time lib info time) 86400) in
      archive_date y m d

  unfoldable pub archive_request_time : ℤ → ℕ
  archive_request_time time =
      let tod = floor_mod (convert_to_local_time lib info time) 86400 in
      (tod / 3600 * 100 + tod / 60 % 60) % 65536

  -- buildArchiveRequestParams: the CRC is over the six bytes of the structure.
  unfoldable pub build_archive_request_params : ℤ → Bytes
  build_archive_request_params time =
      let d = archive_request_date time in
      let t = archive_request_time time in
      compute_crc ((d % 256) ∷ (d / 256 % 256) ∷ (t % 256) ∷ (t / 256 % 256) ∷ 0 ∷ 0 ∷ [])

  -- buildSettimeParams, at the current time
  unfoldable pub build_settime_params : ℤ → Bytes
  build_settime_params now =
      let local = convert_to_local_time lib info now in
      let tod = floor_mod local 86400 in
      let (y, m, d) = lib.civil_of_days (floor_div local 86400) in
      compute_crc (
        (tod % 60)
        ∷ (tod / 60 % 60)
        ∷ (tod / 3600)
        ∷ (d % 256)
        ∷ (m % 256)
        ∷ ((y + 256 * 8 - 1900) % 256)
        ∷ 0
        ∷ 0
        ∷ [])
