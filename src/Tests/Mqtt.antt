-- ===== src/Tests/Mqtt.antt =====
-- A subscriber to a broker.
use meteodata_server.Base.{
  ◌≡◌, ◌≤◌, ◌↔◌, refl, ℕ, List, true, false, [], ◌∷◌, Bytes, some, if◌then◌else◌,
}
use meteodata_server.Base.Int.{pos}
use meteodata_server.Time.{utc, france}
use meteodata_server.Mqtt.{
  MqttSubscriber, SubscriptionDetails, StationDetails, MqttStation, Input, reloads, connacks,
  closes, errors, timer_expires, handler_runs, connected, details_eq, run,
}
use meteodata_server.Base.Text.{text_eq}
use meteodata_server.Mqtt.Retries.{Failure, broken, refused, failures, failures_retried}
use meteodata_server.Mqtt.Details.{details_eq_iff}
use meteodata_server.Mqtt.Stops.{stopped_connects_nothing}
use meteodata_server.Mqtt.Reload.{reload_connects_twice}

abbrev here : SubscriptionDetails
here = record { host = 98 ∷ []; port = pos 8883; user = 117 ∷ []; password = [] }

abbrev elsewhere : SubscriptionDetails
elsewhere = record { host = 98 ∷ []; port = pos 1883; user = 117 ∷ []; password = [] }

abbrev subscriber : MqttSubscriber
subscriber = record {
  is_stopped = false;
  details = here;
  stations = [];
  subscriptions = [];
  retries = 1;
  expires_at = 0;
  waits = 0;
  queued = 0;
  short_status = connected;
  last_reloaded = 0;
  nb_downloads = 0;
  connections = 100 ∷ [];
  requests = [];
  archives = [];
}

abbrev answer : ℕ → StationDetails
answer station = record {
  name = station ∷ [];
  polling_period = 10;
  last_archive_download_time = pos 1700000000;
  store_inside_measurements = false;
  latitude = pos 48;
  longitude = pos 2;
  elevation = pos 35;
}

abbrev topic : Bytes
topic = 116 ∷ []

abbrev identifier : Bytes → ℕ
identifier other = if text_eq topic other then 1 else 2

-- An error after 5 s, then a refusal closed 3 s after, whose timer is noticed 2 s late, then an error.
abbrev bad_hour : List Failure
bad_hour =
    record { after = 5; reason = broken; late = 0; queued_for = 0 }
    ∷ record { after = 1; reason = refused 3 identifier; late = 2; queued_for = 1 }
    ∷ record { after = 0; reason = broken; late = 0; queued_for = 0 }
    ∷ []

failures_retried_example :
    (s' : MqttSubscriber) × (run answer (failures 200 1 bad_hour) subscriber ≡ some s')
    × (s'.is_stopped ≡ false)
    × (s'.retries ≡ 4)
    × (s'.connections ≡ 252 ∷ 234 ∷ 217 ∷ 100 ∷ [])
    × (242 ≤ 252)
    × (252 ≤ 1010)
failures_retried_example = failures_retried answer 200 bad_hour subscriber refl refl

abbrev rest_of_day : List (ℕ × Input)
rest_of_day =
    (200, errors)
    ∷ (250, reloads [])
    ∷ (260, closes)
    ∷ (300, timer_expires)
    ∷ (300, handler_runs)
    ∷ []

abbrev stopped_subscriber : MqttSubscriber
stopped_subscriber = record subscriber { is_stopped = true; waits = 1; queued = 1 }

stopped_connects_nothing_example :
    (s' : MqttSubscriber) × (run answer rest_of_day stopped_subscriber ≡ some s')
    × (s'.is_stopped ≡ true)
    × (s'.connections ≡ 100 ∷ [])
stopped_connects_nothing_example =
    stopped_connects_nothing answer 100 [] rest_of_day stopped_subscriber
      (refl, (refl, (refl, (refl, (refl, tt))))) refl refl

-- Two rows of the same topic, and one of another account.
abbrev rows : List MqttStation
rows =
    record { station = 3; details = elsewhere; topic = topic; timezone = utc }
    ∷ record { station = 4; details = here; topic = topic; timezone = utc }
    ∷ record { station = 5; details = here; topic = topic; timezone = france }
    ∷ []

reload_connects_twice_example :
    (s' : MqttSubscriber) × (run answer
        ((200, reloads rows)
          ∷ (202, closes)
          ∷ (203, connacks true identifier)
          ∷ (212, timer_expires)
          ∷ (212, handler_runs)
          ∷ [])
        subscriber
      ≡ some s')
    × (s'.connections ≡ 212 ∷ 200 ∷ 100 ∷ [])
reload_connects_twice_example =
    reload_connects_twice answer 100 [] 200 202 203 rows identifier subscriber refl refl refl

-- The same host and user, and another port.
details_eq_iff_example : (details_eq here elsewhere ≡ true) ↔ (here ≡ elsewhere)
details_eq_iff_example = details_eq_iff here elsewhere
