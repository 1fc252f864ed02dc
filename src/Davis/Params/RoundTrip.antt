-- ===== src/Davis/Params/RoundTrip.antt =====
-- An archive request names the record that it was built from.
use meteodata_server.Base.{
  ℕ, ◌+◌, ◌*◌, ◌/◌, ◌%◌, ◌<◌, ◌≡◌, ap, ◌∙◌, true, arith, Bytes, length, take, [], ◌∷◌, IsBytes,
}
use Prim.Native.String.{String}
use meteodata_server.Base.Int.{ℤ, pos, negsuc, ◌+ℤ◌, ◌*ℤ◌, floor_div, floor_mod}
use meteodata_server.Time.{DateLib, TimezoneInfo, by_timezone, local_seconds, convert_to_local_time}
use meteodata_server.Time.Laws.{to_local-from_local}
use meteodata_server.Davis.Crc.{validate_crc}
use meteodata_server.Davis.Crc.RoundTrip.{validate_crc-compute_crc}
use meteodata_server.Davis.Archive.{ArchiveDataPoint, data_point, point_timestamp}
use meteodata_server.Davis.Params.{
  archive_date, archive_request_date, archive_request_time, build_archive_request_params,
}

floor_div-day : (d : ℤ) (s : ℕ) → s < 86400 → floor_div (d *ℤ pos 86400 +ℤ pos s) 86400 ≡ d
unfolding ◌*ℤ◌ ◌+ℤ◌
floor_div-day (pos n) s h = ground arith
floor_div-day (negsuc n) s h = ground arith

floor_mod-day : (d : ℤ) (s : ℕ) → s < 86400 → floor_mod (d *ℤ pos 86400 +ℤ pos s) 86400 ≡ s
unfolding ◌*ℤ◌ ◌+ℤ◌
floor_mod-day (pos n) s h = ground arith
floor_mod-day (negsuc n) s h = ground arith

-- The date word of a record is rebuilt from its fields.
archive_date_fields :
    (w : ℕ) → w < 65536 → archive_date (w / 512 % 128 + 2000) (w / 32 % 16) (w % 32) ≡ w
unfolding archive_date
archive_date_fields w h = omega arith

four_bytes :
    (d t b0 b1 b2 b3 : ℕ)
    → IsBytes (b0 ∷ b1 ∷ b2 ∷ b3 ∷ [])
    → d ≡ b0 + b1 * 256
    → t ≡ (b2 + b3 * 256) % 65536
    → (d % 256) ∷ (d / 256 % 256) ∷ (t % 256) ∷ (t / 256 % 256) ∷ [] ≡ b0 ∷ b1 ∷ b2 ∷ b3 ∷ []
four_bytes d t b0 b1 b2 b3 bytes p q = ground arith

module _ (lib : DateLib) (info : TimezoneInfo) where
  -- What an archive record must satisfy to be found again: its time of day exists, the date library
  -- gives its date back, and so does its zone (which holds outside the hours that a zone skips).
  pub record IsDated (p : ArchiveDataPoint) : Type 0 where
    pub hours : p.time / 100 < 24
    pub minutes : p.time % 100 < 60
    pub date :
        lib.civil_of_days (lib.days_of_civil (p.year + 2000) p.month p.day)
        ≡ (p.year + 2000, p.month, p.day)
    pub local :
        (zone : String)
        → info ≡ by_timezone zone
        → lib.zone_to_local zone (
            lib.zone_to_sys zone
              (local_seconds lib p.day p.month (p.year + 2000) (p.time / 100) (p.time % 100)))
          ≡ local_seconds lib p.day p.month (p.year + 2000) (p.time / 100) (p.time % 100)

  abbrev date_word : ℤ → ℕ
  date_word day = let (y, m, d) = lib.civil_of_days day in archive_date y m d

  module _ (p : ArchiveDataPoint) (dated : IsDated p) where
    point_local :
        convert_to_local_time lib info (point_timestamp lib info p)
        ≡ local_seconds lib p.day p.month (p.year + 2000) (p.time / 100) (p.time % 100)
    unfolding point_timestamp
    point_local =
        to_local-from_local lib info p.day p.month (p.year + 2000) (p.time / 100) (p.time % 100)
          dated.local

    request_date_lem :
        archive_request_date lib info (point_timestamp lib info p)
        ≡ archive_date (p.year + 2000) p.month p.day
    unfolding archive_request_date
    request_date_lem =
        ap (λ t. date_word (floor_div t 86400)) point_local
        ∙ ap date_word (
            floor_div-day _ (p.time / 100 * 3600 + p.time % 100 * 60)
              (omega (arith, dated.hours, dated.minutes)))
        ∙ ap (λ c. archive_date c.0 c.1 c.2) dated.date

    request_time_lem : archive_request_time lib info (point_timestamp lib info p) ≡ p.time % 65536
    unfolding archive_request_time
    request_time_lem =
        let tod =
          ap (λ t. floor_mod t 86400) point_local
          ∙ floor_mod-day _ (p.time / 100 * 3600 + p.time % 100 * 60)
              (omega (arith, dated.hours, dated.minutes)) in
        omega (arith, tod, dated.hours, dated.minutes)

  -- The request for the archive after a record carries the very date and time bytes of that
  -- record, by which the station finds it, and a CRC that is valid, if the time of day of the
  -- record exists and the date library gives back its date and its local time.
  pub request-record :
      (b0 b1 b2 b3 : ℕ) (rest : Bytes)
      → IsBytes (b0 ∷ b1 ∷ b2 ∷ b3 ∷ [])
      → IsDated (data_point (b0 ∷ b1 ∷ b2 ∷ b3 ∷ rest))
      → let p = data_point (b0 ∷ b1 ∷ b2 ∷ b3 ∷ rest) in
        let request = build_archive_request_params lib info (point_timestamp lib info p) in
        (take 4 request ≡ b0 ∷ b1 ∷ b2 ∷ b3 ∷ [])
        × (length request ≡ 6)
        × (validate_crc request ≡ true)
  unfolding build_archive_request_params
  request-record b0 b1 b2 b3 rest bytes dated =
      let p = data_point (b0 ∷ b1 ∷ b2 ∷ b3 ∷ rest) in
      let date = request_date_lem p dated ∙ archive_date_fields (b0 + b1 * 256) (omega arith) in
      let time = request_time_lem p dated in
      let d = archive_request_date lib info (point_timestamp lib info p) in
      let t = archive_request_time lib info (point_timestamp lib info p) in
      let sealed =
        validate_crc-compute_crc
          ((d % 256) ∷ (d / 256 % 256) ∷ (t % 256) ∷ (t / 256 % 256) ∷ 0 ∷ 0 ∷ []) (omega arith) in
      (sealed.2 ∙ four_bytes d t b0 b1 b2 b3 bytes date time, sealed.1, sealed.0)
