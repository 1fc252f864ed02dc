-- ===== src/Tests/Archive.antt =====
-- The archive, at a page of one point; the time settings of a station.
use meteodata_server.Base.{
  ℕ, zero, suc, ◌≤◌, ◌+◌, ◌%◌, ◌*◌, ◌/◌, ◌≡◌, ◌↔◌, refl, true, none, [], ◌∷◌, arith, length, take,
  Bytes, map, ◌++◌,
}
use meteodata_server.Base.Int.{pos, negsuc, ◌≤ℤ◌, ◌-ℤ◌}
use meteodata_server.Time.{prepare, gmt_offset_minutes, TimezoneBuffer}
use meteodata_server.Time.Laws.{prepare_out_of_table, gmt_offset_minutes_west}
use meteodata_server.Davis.Crc.{validate_crc}
use meteodata_server.Davis.Archive.{
  ArchivePage, data_point, page_points, point_timestamp, store, inserts_point, inserts_batch,
}
use meteodata_server.Davis.Archive.Store.{store-wanted, wanted_points, AllUntil, Accepted}
use meteodata_server.Davis.Params.{build_archive_request_params}
use meteodata_server.Davis.Params.RoundTrip.{request-record}
use meteodata_server.Tests.Data.{calendar, utc, accepting, noon, time_offseter}

abbrev zeros : ℕ → Bytes
zeros zero = []
zeros (suc n) = 0 ∷ zeros n

abbrev buffer : TimezoneBuffer
buffer = record {
  time_zone = 50;
  manual_dst = 1;
  active_dst = 0;
  gmt_offset = pos 0;
  gmt_or_zone = 0;
}

prepare_out_of_table_example :
    (prepare time_offseter buffer ≡ none) ↔ ((buffer.gmt_or_zone ≡ 0) × (47 ≤ buffer.time_zone))
prepare_out_of_table_example = prepare_out_of_table time_offseter buffer

-- -03:30
gmt_offset_minutes_west_example :
    (gmt_offset_minutes (negsuc 329) ≡ pos 0 -ℤ pos (330 / 100 * 60 + 330 % 100)) ↔ (330 % 100 ≡ 0)
gmt_offset_minutes_west_example = gmt_offset_minutes_west 329

-- The point of 2022-01-08 at 12:00, followed by points that were never written.
abbrev page : ArchivePage
page = record {
  page = 0 ∷ 0x28 ∷ 0x2c ∷ 0xb0 ∷ 0x04 ∷ zeros 262;
  beginning = pos 1641600000;
  most_recent = pos 1641600000;
}

store-wanted_example :
    let (page', calls, ret) = store calendar utc noon accepting page in
    let wanted = wanted_points calendar utc noon page.beginning (page_points page.page) in
    (page'.beginning ≡ page.beginning)
    × (page.most_recent ≤ℤ page'.most_recent)
    × (page'.most_recent ≤ℤ noon)
    × ((ret ≡ true) ↔ (
        Accepted calendar utc noon accepting wanted
        × (accepting.insert_v2_data_points_in_timescale_db wanted ≡ true)))
    × (ret ≡ true
        → (calls ≡ map inserts_point wanted ++ (inserts_batch wanted ∷ []))
          × AllUntil calendar utc noon page'.most_recent wanted)
store-wanted_example = store-wanted calendar utc noon accepting page (omega arith)

request-record_example :
    let p = data_point (0x28 ∷ 0x2c ∷ 0xb0 ∷ 0x04 ∷ zeros 48) in
    let request = build_archive_request_params calendar utc (point_timestamp calendar utc p) in
    (take 4 request ≡ 0x28 ∷ 0x2c ∷ 0xb0 ∷ 0x04 ∷ [])
    × (length request ≡ 6)
    × (validate_crc request ≡ true)
request-record_example =
    request-record calendar utc 0x28 0x2c 0xb0 0x04 (zeros 48) (ground arith) (record {
      hours = omega arith;
      minutes = omega arith;
      date = refl;
      local = λ zone h. ground (arith, h);
    })
