-- ===== src/Davis/Connector/State.antt =====
-- The states, the events and the object of the connector (src/davis/vantagepro2_connector.h).
use Prim.Native.Char.{code}
use Prim.Native.String.{String}
use meteodata_server.Base.{ℕ, ◌-◌, Bool, List, [], ◌∷◌, ltb, if◌then◌else◌, Bytes}
use meteodata_server.Base.Int.{ℤ, pos, negsuc}
use meteodata_server.Time.{TimeOffseter}
use meteodata_server.Davis.Archive.{ArchivePage, Inserts}

-- enum class State
pub data State : Type 0 where
  starting waiting_next_measure_tick : State
  sending_wake_up_station waiting_echo_station sending_req_station : State
  waiting_ack_station waiting_data_station : State
  sending_req_main_mode waiting_ack_main_mode : State
  sending_req_timezone waiting_ack_timezone waiting_data_timezone : State
  sending_wake_up_archive waiting_echo_archive sending_req_archive waiting_ack_archive : State
  sending_archive_params waiting_ack_archive_params waiting_archive_nb_pages : State
  sending_ack_archive_download sending_abort_archive_download : State
  waiting_archive_page sending_archive_page_answer : State
  sending_wake_up_settime waiting_echo_settime sending_settime waiting_ack_settime : State
  sending_settime_params waiting_ack_time_set : State
  stopped : State

-- The error codes that the handlers tell apart.
pub data ErrorCode : Type 0 where
  success operation_canceled timed_out other_error : ErrorCode

-- The requests with no parameters.
pub data Request : Type 0 where
  echo_request get_station_request main_mode_request get_timezone_request : Request
  get_archive_request settime_request ack nak abort : Request

abbrev codes : String → Bytes
codes String.[] = []
codes (String.◌∷◌ c s) = code c ∷ codes s

-- The bytes sent: `sizeof` less the final NUL.
pub request_bytes : Request → Bytes
request_bytes echo_request = codes "\n"
request_bytes get_station_request = codes "EEBRD 0B 06\n"
request_bytes main_mode_request = codes "RXTEST\n"
request_bytes get_timezone_request = codes "EEBRD 11 06\n"
request_bytes get_archive_request = codes "DMPAFT\n"
request_bytes settime_request = codes "SETTIME\n"
request_bytes ack = 0x06 ∷ []
request_bytes nak = codes "!"
request_bytes abort = 0x1b ∷ []

-- The wait in progress on `_timer`, with its length in seconds: `checkDeadline`, or the retry of
-- `flushSocketAndRetry`.
pub data TimerTask : Type 0 where
  no_wait : TimerTask
  deadline : ℕ → TimerTask
  flush_and_retry : State → Request → TimerTask

-- Where `recvData` puts what it reads.
pub data Destination : Type 0 where
  into_coords into_timezone_buffer into_archive_size into_archive_page : Destination

-- The operation in progress on the socket.
pub data IoTask : Type 0 where
  no_io : IoTask
  writing : Bytes → IoTask
  reading_wake_up reading_ok reading_ack : IoTask
  reading_data : Destination → IoTask

-- What the connector does to the database and to the rest of the program.
pub data Effect : Type 0 where
  update_last_archive_download_time : ℤ → Effect
  publish_new_datapoint : ℤ → Effect
  publish_jobs_for_past_data_insertion : ℤ → ℤ → Effect

-- The fields of the object. `archive_size` is the buffer as received, `pages_left` its first word.
pub record Connector : Type 0 where
  pub state : State
  pub timer : TimerTask
  pub io : IoTask
  pub set_time_timer : Bool
  pub sock_open : Bool
  pub set_time_requested : Bool
  pub timeouts : ℕ
  pub transmission_errors : ℕ
  pub station : ℕ
  pub polling_period : ℕ
  pub ack_buffer : ℕ
  pub coords : Bytes
  pub timezone_buffer : Bytes
  pub archive_size : Bytes
  pub pages_left : ℕ
  pub archive_page : ArchivePage
  pub last_archive : ℤ
  pub oldest_archive : ℤ
  pub newest_archive : ℤ
  pub job_publisher : Bool
  pub time_offseter : TimeOffseter
  pub nb_downloads : ℕ
  pub effects : List Effect

-- A row of the database for a station.
pub record StationRow : Type 0 where
  pub found : Bool
  pub station : ℕ
  pub polling_period : ℕ
  pub last_archive_download_time : ℤ
  pub store_inside_measurements : Bool

-- What the environment answers while one event is handled: the time, the row of the station with
-- the given coordinates, the results of the insertions, and what a read past the table of time
-- offsets would give.
pub record World : Type 0 where
  pub now : ℤ
  pub get_station_by_coords : Bytes → StationRow
  pub inserts : Inserts
  pub stray_offset : ℤ

-- An int16_t.
abbrev pub signed16 : ℕ → ℤ
signed16 w = if ltb w 32768 then pos w else negsuc (65535 - w)
