-- ===== src/Tests/Data.antt =====
-- A calendar, a station and what the environment answers.
use meteodata_server.Base.{ℕ, ◌+◌, ◌-◌, ◌*◌, ◌/◌, ◌%◌, true, false, [], leb, ltb, if◌then◌else◌}
use meteodata_server.Base.Int.{ℤ, pos, negsuc, ◌+ℤ◌, ◌-ℤ◌}
use meteodata_server.Time.{DateLib, TimezoneInfo, by_offset, TimeOffseter}
use meteodata_server.Davis.Archive.{Inserts}
use meteodata_server.Davis.Connector.State.{Connector, World, starting, no_wait, no_io}

-- The proleptic Gregorian calendar, for dates since 1970.
abbrev civil_day : ℕ → ℕ → ℕ → ℤ
civil_day y m d =
    let y' = if leb m 2 then y - 1 else y in
    let yoe = y' % 400 in
    let doy = (153 * ((m + 9) % 12) + 2) / 5 + d - 1 in
    pos (y' / 400 * 146097 + (yoe * 365 + yoe / 4 - yoe / 100 + doy) - 719468)

abbrev civil_date : ℕ → ℕ × ℕ × ℕ
civil_date n =
    let z = n + 719468 in
    let doe = z % 146097 in
    let yoe = (doe - doe / 1460 + doe / 36524 - doe / 146096) / 365 in
    let doy = doe - (365 * yoe + yoe / 4 - yoe / 100) in
    let mp = (5 * doy + 2) / 153 in
    let m = if ltb mp 10 then mp + 3 else mp - 9 in
    (yoe + z / 146097 * 400 + (if leb m 2 then 1 else 0), m, doy - (153 * mp + 2) / 5 + 1)

abbrev civil_of_days : ℤ → ℕ × ℕ × ℕ
civil_of_days (pos n) = civil_date n
civil_of_days (negsuc n) = (1969, 12, 31)

abbrev pub calendar : DateLib
calendar = record {
  days_of_civil = civil_day;
  civil_of_days = civil_of_days;
  zone_to_sys = λ zone t. t -ℤ pos 3600;
  zone_to_local = λ zone t. t +ℤ pos 3600;
}

abbrev pub utc : TimezoneInfo
utc = by_offset (pos 0)

abbrev pub time_offseter : TimeOffseter
time_offseter = record {
  timezone_info = utc;
  latitude = pos 0;
  longitude = pos 0;
  elevation = pos 0;
  measure_step = 5;
  may_store_inside_measurements = true;
}

abbrev pub accepting : Inserts
accepting = record {
  insert_v2_data_point = λ p. true;
  insert_v2_data_points_in_timescale_db = λ ps. true;
}

abbrev pub refusing : Inserts
refusing = record {
  insert_v2_data_point = λ p. false;
  insert_v2_data_points_in_timescale_db = λ ps. false;
}

-- 2022-01-08T12:02:00Z
abbrev pub noon : ℤ
noon = pos 1641643320

abbrev pub world_with : Inserts → World
world_with inserts = record {
  now = noon;
  get_station_by_coords = λ coords. record {
    found = true;
    station = 7;
    polling_period = 5;
    last_archive_download_time = pos 1641600000;
    store_inside_measurements = true;
  };
  inserts = inserts;
  stray_offset = pos 0;
}

abbrev pub world : World
world = world_with accepting

abbrev pub connector : Connector
connector = record {
  state = starting;
  timer = no_wait;
  io = no_io;
  set_time_timer = false;
  sock_open = true;
  set_time_requested = false;
  timeouts = 0;
  transmission_errors = 0;
  station = 7;
  polling_period = 5;
  ack_buffer = 0;
  coords = [];
  timezone_buffer = [];
  archive_size = [];
  pages_left = 0;
  archive_page = record { page = []; beginning = pos 1641600000; most_recent = pos 1641600000 };
  last_archive = pos 1641600000;
  oldest_archive = pos 1641643200;
  newest_archive = pos 0;
  job_publisher = true;
  time_offseter = time_offseter;
  nb_downloads = 0;
  effects = [];
}
