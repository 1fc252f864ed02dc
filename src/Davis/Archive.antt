-- ===== src/Davis/Archive.antt =====
-- The pages of archive that a station sends: `VantagePro2ArchivePage` and the parts of
-- `VantagePro2ArchiveMessage` that decide what is stored (src/davis/vantagepro2_archive_page.cpp,
-- src/davis/vantagepro2_archive_message.h). A page is the list of the bytes received.
pub mod Store
use meteodata_server.Base.{
  ℕ, zero, suc, ◌+◌, ◌*◌, ◌/◌, ◌%◌, Bool, true, false, not, ◌&&◌, List, [], ◌∷◌, ◌++◌, ◌==◌,
  if◌then◌else◌, Bytes, get_or, take, drop,
}
use meteodata_server.Base.Int.{ℤ, ltb_ℤ}
use meteodata_server.Time.{DateLib, TimezoneInfo, convert_from_local_time}
use meteodata_server.Davis.Crc.{validate_crc}

-- A 16-bit word of a packed structure, low byte first.
abbrev pub word_at : Bytes → ℕ → ℕ
word_at bytes i = get_or bytes i 0 + get_or bytes (i + 1) 0 * 256

-- ArchiveDataPoint: its bit fields, and all its 52 bytes for the measurements.
pub record ArchiveDataPoint : Type 0 where
  pub day : ℕ
  pub month : ℕ
  pub year : ℕ
  pub time : ℕ
  pub raw : Bytes

abbrev pub data_point : Bytes → ArchiveDataPoint
data_point raw = record {
  day = word_at raw 0 % 32;
  month = word_at raw 0 / 32 % 16;
  year = word_at raw 0 / 512 % 128;
  time = word_at raw 2;
  raw = raw;
}

abbrev pub number_of_data_points_per_page : ℕ
number_of_data_points_per_page = 5

-- The points of ArchivePage: after the sequence number, `n` structures of 52 bytes.
abbrev pub points_from : ℕ → Bytes → List ArchiveDataPoint
points_from zero bytes = []
points_from (suc n) bytes = data_point (take 52 bytes) ∷ points_from n (drop 52 bytes)

abbrev pub page_points : Bytes → List ArchiveDataPoint
page_points page = points_from number_of_data_points_per_page (drop 1 page)

-- The state of VantagePro2ArchivePage. The time settings are those of the connector.
pub record ArchivePage : Type 0 where
  pub page : Bytes
  pub beginning : ℤ
  pub most_recent : ℤ

-- isValid
unfoldable pub page_is_valid : ArchivePage → Bool
page_is_valid p = validate_crc p.page

-- prepare
unfoldable pub page_prepare : ArchivePage → ℤ → ArchivePage
page_prepare p beginning = record p { beginning = beginning; most_recent = beginning }

abbrev pub all_bytes : ℕ → Bytes → Bool
all_bytes b [] = true
all_bytes b (x ∷ xs) = x == b && all_bytes b xs

-- What the database answers, as functions of what it is given: whether a point is inserted, and
-- whether a batch is.
pub record Inserts : Type 0 where
  pub insert_v2_data_point : ArchiveDataPoint → Bool
  pub insert_v2_data_points_in_timescale_db : List ArchiveDataPoint → Bool

-- The calls of the database, insertV2DataPoint and insertV2DataPointsInTimescaleDB.
pub data Insertion : Type 0 where
  inserts_point : ArchiveDataPoint → Insertion
  inserts_batch : List ArchiveDataPoint → Insertion

module _ (lib : DateLib) (info : TimezoneInfo) where
  -- getTimestamp
  unfoldable pub point_timestamp : ArchiveDataPoint → ℤ
  point_timestamp p =
      convert_from_local_time lib info p.day p.month (p.year + 2000) (p.time / 100) (p.time % 100)

  module _ (now : ℤ) where
    -- looksValid with a lower bound
    unfoldable pub looks_valid : ArchiveDataPoint → ℤ → Bool
    looks_valid p not_before =
        not (all_bytes 0 (take 4 p.raw))
        && ltb_ℤ (point_timestamp p) now
        && ltb_ℤ not_before (point_timestamp p)

    -- isRelevant: the answer and the page with its most recent entry.
    unfoldable pub is_relevant : ArchivePage → ArchiveDataPoint → ArchivePage × Bool
    is_relevant page p =
        let time = point_timestamp p in
        if all_bytes 255 (take 4 p.raw)
        then (page, false)
        else if ltb_ℤ page.beginning time && not (ltb_ℤ now time)
        then (
          if ltb_ℤ page.most_recent time then record page { most_recent = time } else page,
          true,
        )
        else (page, false)

    module _ (db : Inserts) where
      -- One round of the loop of `store`, reached with `ret` true: the page, the calls of the
      -- database, what is added to `allObs`, and the new `ret`.
      unfoldable pub store_point :
          ArchivePage
          → ArchiveDataPoint
          → ArchivePage × List Insertion × List ArchiveDataPoint × Bool
      unfolding is_relevant looks_valid
      store_point page p =
          let (page', relevant) = is_relevant page p in
          if relevant && looks_valid p page'.beginning
          then (page', inserts_point p ∷ [], p ∷ [], db.insert_v2_data_point p)
          else (page', [], [], true)

      -- The loop of `store`: it stops at the first insertion that fails.
      unfoldable pub store_points :
          ArchivePage
          → List ArchiveDataPoint
          → ArchivePage × List Insertion × List ArchiveDataPoint × Bool
      store_points page [] = (page, [], [], true)
      store_points page (p ∷ ps) =
          let (page', calls, obs, ret) = store_point page p in
          let (page'', later_calls, later, ret') = store_points page' ps in
          if ret
          then (page'', calls ++ later_calls, obs ++ later, ret')
          else (page', calls, obs, false)

      -- store: the page, the calls of the database and the answer.
      unfoldable pub store : ArchivePage → ArchivePage × List Insertion × Bool
      store page =
          let (page', calls, all_obs, ret) = store_points page (page_points page.page) in
          if ret
          then (
            page',
            calls ++ (inserts_batch all_obs ∷ []),
            db.insert_v2_data_points_in_timescale_db all_obs,
          )
          else (page', calls, false)
