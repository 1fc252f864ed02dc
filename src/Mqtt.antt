-- ===== src/Mqtt.antt =====
-- The subscriptions to an MQTT broker (src/mqtt/mqtt_subscriber.h and src/mqtt/mqtt_subscriber.cpp). Texts
-- are their bytes and times are seconds. A client of the broker is known by the time of its connection,
-- and `_client` is the last one, the null pointer before the first.
pub mod Details
pub mod Retries
pub mod Stops
pub mod Topics
pub mod Reload
pub mod Stations
use Prim.Native.Nat.{min}
use meteodata_server.Base.{
  ℕ, zero, suc, ◌+◌, ◌^◌, Bool, true, false, not, ◌&&◌, List, [], ◌∷◌, Bytes, Option, none, some,
  ltb, leb, ◌==◌, if◌then◌else◌,
}
use meteodata_server.Base.Text.{text_eq}
use meteodata_server.Base.Int.{ℤ, pos_part, neg_part, ltb_ℤ}
use meteodata_server.Time.{TimeOffseter, PredefinedTimezone, timezone_info_for}

-- MqttSubscriptionDetails
pub record SubscriptionDetails : Type 0 where
  pub host : Bytes
  pub port : ℤ
  pub user : Bytes
  pub password : Bytes

-- `<` on std::string
abbrev pub text_ltb : Bytes → Bytes → Bool
text_ltb [] [] = false
text_ltb [] (b ∷ bs) = true
text_ltb (a ∷ more) [] = false
text_ltb (a ∷ more) (b ∷ bs) =
    let rest = text_ltb more bs in if ltb a b then true else if ltb b a then false else rest

abbrev pub int_eq : ℤ → ℤ → Bool
int_eq a b = pos_part a + neg_part b == pos_part b + neg_part a

-- operator<
unfoldable pub details_ltb : SubscriptionDetails → SubscriptionDetails → Bool
details_ltb s1 s2 =
    if text_ltb s1.host s2.host
    then true
    else if text_eq s1.host s2.host
    then (if ltb_ℤ s1.port s2.port
        then true
        else if int_eq s1.port s2.port
        then (if text_ltb s1.user s2.user
            then true
            else if text_eq s1.user s2.user
            then text_ltb s1.password s2.password
            else false)
        else false)
    else false

-- operator==
unfoldable pub details_eq : SubscriptionDetails → SubscriptionDetails → Bool
unfolding details_ltb
details_eq s1 s2 = not (details_ltb s1 s2) && not (details_ltb s2 s1)

-- A value of `_stations`, a station being known by its number.
pub record Station : Type 0 where
  pub station : ℕ
  pub name : Bytes
  pub polling_period : ℕ
  pub last_archive : ℤ
  pub time_offseter : TimeOffseter

-- What the database answers of a station (getStationDetails and getStationCoordinates).
pub record StationDetails : Type 0 where
  pub name : Bytes
  pub polling_period : ℕ
  pub last_archive_download_time : ℤ
  pub store_inside_measurements : Bool
  pub latitude : ℤ
  pub longitude : ℤ
  pub elevation : ℤ

-- What it answers of a subscription (getMqttStations).
pub record MqttStation : Type 0 where
  pub station : ℕ
  pub details : SubscriptionDetails
  pub topic : Bytes
  pub timezone : PredefinedTimezone

-- A std::map by topics, in their order.
abbrev pub Map {ℓ} : Type ℓ → Type ℓ
Map A = List (Bytes × A)

abbrev pub find_topic {ℓ} : {A : Type ℓ} → Bytes → Map A → Option A
find_topic topic [] = none
find_topic topic ((key, a) ∷ rest) =
    let found = find_topic topic rest in if text_eq topic key then some a else found

abbrev pub insert {ℓ} : {A : Type ℓ} → Bytes → A → Map A → Map A
insert topic a [] = (topic, a) ∷ []
insert topic a ((key, b) ∷ rest) =
    let later = insert topic a rest in
    if text_ltb topic key then (topic, a) ∷ (key, b) ∷ rest else (key, b) ∷ later

-- emplace, which keeps the value that is there.
abbrev pub emplace {ℓ} : {A : Type ℓ} → Bytes → A → Map A → Map A
emplace topic a m = elim (find_topic topic m) [ none ↦ insert topic a m | some b ↦ m ]

pub data ShortStatus : Type 0 where
  idle connected failed_to_connect connection_closed error stopped : ShortStatus

pub data ClientRequest : Type 0 where
  disconnects : ClientRequest
  subscribes : Bytes → ClientRequest

-- The object; `connections` has the times of the calls of `connect`, `requests` the other calls of the
-- clients and `archives` the calls of processArchive, the latest first. The handlers of the timer that
-- are due stay queued until they run.
pub record MqttSubscriber : Type 0 where
  pub is_stopped : Bool
  pub details : SubscriptionDetails
  pub stations : Map Station
  pub subscriptions : List (ℕ × Bytes)
  pub retries : ℕ
  pub expires_at : ℕ
  pub waits : ℕ
  pub queued : ℕ
  pub short_status : ShortStatus
  pub last_reloaded : ℕ
  pub nb_downloads : ℕ
  pub connections : List ℕ
  pub requests : List ClientRequest
  pub archives : List (Bytes × Bytes)

abbrev pub max_retries_exponential_backoff : ℕ
max_retries_exponential_backoff = 8

-- start
unfoldable pub start : ℕ → MqttSubscriber → MqttSubscriber
start now s = record s {
  is_stopped = false;
  retries = s.retries + 1;
  connections = now ∷ s.connections;
}

-- `_client->disconnect()`, of the null pointer before the first connection
abbrev pub disconnect : MqttSubscriber → Option MqttSubscriber
disconnect s = elim s.connections [
  | [] ↦ none
  | last ∷ others ↦ some (record s { requests = disconnects ∷ s.requests })
]

-- stop
unfoldable pub stop : MqttSubscriber → Option MqttSubscriber
stop s = disconnect (record s { short_status = stopped; is_stopped = true; waits = 0 })

-- `expires_from_now`, which cancels the waits, then `async_wait`.
abbrev pub wait_for : ℕ → ℕ → MqttSubscriber → MqttSubscriber
wait_for delay now s = record s { expires_at = now + delay; waits = 1 }

-- handleClose
unfoldable pub handle_close : ℕ → MqttSubscriber → MqttSubscriber
handle_close now s = if s.is_stopped then s else wait_for 10 now s

abbrev pub backoff : ℕ → ℕ
backoff retries = 10 + 2 ^ min retries max_retries_exponential_backoff

-- handleError
unfoldable pub handle_error : ℕ → MqttSubscriber → MqttSubscriber
handle_error now s = if s.is_stopped then s else wait_for (backoff s.retries) now s

-- checkRetryStartDeadline, not cancelled
unfoldable pub check_retry_start_deadline : ℕ → MqttSubscriber → MqttSubscriber
unfolding start
check_retry_start_deadline now s =
    if s.is_stopped
    then s
    else if leb s.expires_at now
    then start now s
    else record s { waits = s.waits + 1 }

-- `_subscriptions[id] = topic`
abbrev pub assign : ℕ → Bytes → List (ℕ × Bytes) → List (ℕ × Bytes)
assign id topic [] = (id, topic) ∷ []
assign id topic ((key, t) ∷ rest) =
    let others = assign id topic rest in
    if key == id then (key, topic) ∷ rest else (key, t) ∷ others

abbrev pub subscribe_to : (Bytes → ℕ) → Bytes → MqttSubscriber → MqttSubscriber
subscribe_to subscribe topic s = record s {
  subscriptions = assign (subscribe topic) topic s.subscriptions;
  requests = subscribes topic ∷ s.requests;
}

-- handleConnAck; `subscribe` gives the identifier of the packet of each subscription.
unfoldable pub subscribe_all : (Bytes → ℕ) → Map Station → MqttSubscriber → MqttSubscriber
subscribe_all subscribe [] s = s
subscribe_all subscribe ((topic, station) ∷ rest) s =
    subscribe_all subscribe rest (subscribe_to subscribe topic s)

unfoldable pub handle_conn_ack : (Bytes → ℕ) → MqttSubscriber → MqttSubscriber
unfolding subscribe_all
handle_conn_ack subscribe s = subscribe_all subscribe s.stations s

-- The handler of the acknowledgements of a connection, set by `start`.
unfoldable pub on_connack : ℕ → Bool → (Bytes → ℕ) → MqttSubscriber → MqttSubscriber
unfolding handle_conn_ack
on_connack now accepted subscribe s =
    if accepted
    then handle_conn_ack subscribe
        (record s { retries = 0; short_status = connected; last_reloaded = now; nb_downloads = 0 })
    else record s { short_status = failed_to_connect }

-- What happens to the object; the acknowledgements, closings and errors are those of any client, also
-- one that is no longer the last, since they share the handlers.
pub data Input : Type 0 where
  starts stops : Input
  reloads : List MqttStation → Input
  connacks : Bool → (Bytes → ℕ) → Input
  closes errors : Input
  publishes : Bytes → Bytes → Input
  timer_expires handler_runs : Input

module _ (station_details : ℕ → StationDetails) where
  abbrev pub new_station : MqttStation → Station
  new_station row =
      let answer = station_details row.station in
      record {
        station = row.station;
        name = answer.name;
        polling_period = answer.polling_period;
        last_archive = answer.last_archive_download_time;
        time_offseter = record {
          timezone_info = timezone_info_for row.timezone;
          latitude = answer.latitude;
          longitude = answer.longitude;
          elevation = answer.elevation;
          measure_step = answer.polling_period;
          may_store_inside_measurements = answer.store_inside_measurements;
        };
      }

  -- addStation
  unfoldable pub add_station : MqttStation → MqttSubscriber → MqttSubscriber
  add_station row s = record s { stations = emplace row.topic (new_station row) s.stations }

  abbrev pub add_matching : MqttStation → MqttSubscriber → MqttSubscriber
  add_matching row s = if details_eq s.details row.details then add_station row s else s

  -- The loop of `reload` over the stations of the database.
  unfoldable pub add_stations : List MqttStation → MqttSubscriber → MqttSubscriber
  add_stations [] s = s
  add_stations (row ∷ rest) s = add_stations rest (add_matching row s)

  abbrev pub restart : ℕ → List MqttStation → MqttSubscriber → MqttSubscriber
  restart now rows s =
      if s.is_stopped then s else start now (add_stations rows (record s { stations = [] }))

  -- reload
  unfoldable pub reload : ℕ → List MqttStation → MqttSubscriber → Option MqttSubscriber
  unfolding add_stations start
  reload now rows s = elim (disconnect s) [ none ↦ none | some s' ↦ some (restart now rows s') ]

  unfoldable pub step : ℕ → Input → MqttSubscriber → Option MqttSubscriber
  unfolding start stop reload on_connack handle_close handle_error check_retry_start_deadline
  step now starts s = some (start now s)
  step now stops s = stop s
  step now (reloads rows) s = reload now rows s
  step now (connacks accepted subscribe) s = some (on_connack now accepted subscribe s)
  step now closes s = some (handle_close now (record s { short_status = connection_closed }))
  step now errors s = some (handle_error now (record s { short_status = error }))
  step now (publishes topic contents) s =
      some
        (record s { nb_downloads = s.nb_downloads + 1; archives = (topic, contents) ∷ s.archives })
  step now timer_expires s =
      some (if leb s.expires_at now then record s { queued = s.queued + s.waits; waits = 0 } else s)
  step now handler_runs s = elim s.queued [
    | zero ↦ some s
    | suc n ↦ some (check_retry_start_deadline now (record s { queued = n }))
  ]

  -- Inputs one after the other, each at its time, until the null pointer is called.
  unfoldable pub run : List (ℕ × Input) → MqttSubscriber → Option MqttSubscriber
  unfolding step
  run [] s = some s
  run ((now, input) ∷ rest) s = elim (step now input s) [ none ↦ none | some s' ↦ run rest s' ]
