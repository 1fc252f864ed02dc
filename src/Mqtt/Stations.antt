-- ===== src/Mqtt/Stations.antt =====
-- The stations of a subscriber that is reloaded, and their topics.
use meteodata_server.Base.{
  ℕ, ◌≡◌, ◌∙◌, refl, ap, Bool, ◌&&◌, List, [], ◌∷◌, Bytes, Option, none, some, if◌then◌else◌,
  Bool-cases, inl, inr,
}
use meteodata_server.Base.Text.{text_eq}
use meteodata_server.Mqtt.{
  MqttSubscriber, SubscriptionDetails, Station, StationDetails, MqttStation, details_eq, start,
  add_station, add_stations, new_station,
}
use meteodata_server.Mqtt.Stops.{disconnected}

-- The station of the first row of a topic that has the details.
abbrev pub first_row : Bytes → SubscriptionDetails → List MqttStation → Option MqttStation
first_row topic details [] = none
first_row topic details (row ∷ rest) =
    let later = first_row topic details rest in
    if details_eq details row.details && text_eq topic row.topic then some row else later

module _ (station_details : ℕ → StationDetails) where
  abbrev pub station_of : Option MqttStation → Option Station
  station_of none = none
  station_of (some row) = some (new_station station_details row)

module _ (station_details : ℕ → StationDetails) where
  pub add_stations_keeps :
      (rows : List MqttStation) (s : MqttSubscriber)
      → let s' = add_stations station_details rows s in
        (s'.connections ≡ s.connections)
        × (s'.subscriptions ≡ s.subscriptions)
        × (s'.queued ≡ s.queued)
  unfolding add_stations add_station
  add_stations_keeps [] s = (refl, refl, refl)
  add_stations_keeps (row ∷ rest) s =
      let then_ = (λ (test : Bool).
        add_stations station_details rest
          (if test then add_station station_details row s else s)) in
      elim (Bool-cases (details_eq s.details row.details)) [
        | inl same ↦
            let (connections, subscriptions, queued) =
              add_stations_keeps rest (add_station station_details row s) in
            (
              ap (λ test. (then_ test).connections) same ∙ connections,
              ap (λ test. (then_ test).subscriptions) same ∙ subscriptions,
              ap (λ test. (then_ test).queued) same ∙ queued,
            )
        | inr differs ↦
            let (connections, subscriptions, queued) = add_stations_keeps rest s in
            (
              ap (λ test. (then_ test).connections) differs ∙ connections,
              ap (λ test. (then_ test).subscriptions) differs ∙ subscriptions,
              ap (λ test. (then_ test).queued) differs ∙ queued,
            )
      ]

  abbrev pub reloaded : ℕ → List MqttStation → MqttSubscriber → MqttSubscriber
  reloaded now rows s =
      start now (add_stations station_details rows (record (disconnected s) { stations = [] }))
