-- ===== src/Mqtt/Stops.antt =====
-- What follows a stop, and what a reload does.
use meteodata_server.Base.{
  Bool, arith, ℕ, zero, suc, ◌+◌, ◌≡◌, refl, ap, ◌∙◌, true, false, List, [], ◌∷◌, Bytes, none, some,
  All, leb, Bool-cases, inl, inr,
}
use meteodata_server.Mqtt.{
  MqttSubscriber, Map, Station, StationDetails, MqttStation, Input, starts, stops, reloads,
  connacks, closes, errors, publishes, timer_expires, handler_runs, run, step, stop, reload,
  handle_close, handle_error, on_connack, handle_conn_ack, subscribe_all, subscribe_to, restart,
  connected, disconnect, disconnects, stopped, error, connection_closed, connected,
  check_retry_start_deadline,
}

pub subscribe_all_keeps :
    (subscribe : Bytes → ℕ) (m : Map Station) (s : MqttSubscriber)
    → let s' = subscribe_all subscribe m s in
      (s'.is_stopped ≡ s.is_stopped) × (s'.connections ≡ s.connections) × (s'.stations ≡ s.stations)
unfolding subscribe_all
subscribe_all_keeps subscribe [] s = (refl, refl, refl)
subscribe_all_keeps subscribe ((topic, station) ∷ rest) s =
    subscribe_all_keeps subscribe rest (subscribe_to subscribe topic s)

-- A stopped subscriber of which some connections were made.
abbrev IsAtRest : ℕ → List ℕ → MqttSubscriber → Type 0
IsAtRest last others s = (s.is_stopped ≡ true) × (s.connections ≡ last ∷ others)

abbrev pub is_start : Input → Bool
is_start starts = true
is_start i = false

abbrev pub disconnected : MqttSubscriber → MqttSubscriber
disconnected s = record s { requests = disconnects ∷ s.requests }

module _ (last : ℕ) (others : List ℕ) where
  pub disconnect_lem :
      (s : MqttSubscriber) → s.connections ≡ last ∷ others → disconnect s ≡ some (disconnected s)
  disconnect_lem s c = rw c refl

module _ (station_details : ℕ → StationDetails) (last : ℕ) (others : List ℕ) where
  pub reload_lem :
      (now : ℕ) (rows : List MqttStation) (s : MqttSubscriber)
      → s.connections ≡ last ∷ others
      → reload station_details now rows s ≡ some (restart station_details now rows (disconnected s))
  unfolding reload
  reload_lem now rows s c =
      ap (λ o. elim o [ none ↦ none | some s' ↦ some (restart station_details now rows s') ])
        (disconnect_lem last others s c)

  stopped_reload :
      (now : ℕ) (rows : List MqttStation) (s : MqttSubscriber)
      → IsAtRest last others s
      → reload station_details now rows s ≡ some (disconnected s)
  stopped_reload now rows s (h, c) = reload_lem now rows s c ∙ rw h refl

  late_handler :
      (now n : ℕ) (s : MqttSubscriber)
      → s.is_stopped ≡ true
      → check_retry_start_deadline now (record s { queued = n }) ≡ record s { queued = n }
  unfolding check_retry_start_deadline
  late_handler now n s h = rw h refl

  stopped_handler :
      (now q : ℕ) (s : MqttSubscriber)
      → s.queued ≡ q
      → IsAtRest last others s
      → (s' : MqttSubscriber) × (step station_details now handler_runs s ≡ some s')
        × IsAtRest last others s'
  unfolding step
  stopped_handler now zero s q (h, c) = (s, rw q refl, (h, c))
  stopped_handler now (suc n) s q (h, c) =
      (record s { queued = n }, rw q (ap some (late_handler now n s h)), (h, c))

  stopped_step :
      (now : ℕ) (i : Input) (s : MqttSubscriber)
      → is_start i ≡ false
      → IsAtRest last others s
      → (s' : MqttSubscriber) × (step station_details now i s ≡ some s') × IsAtRest last others s'
  unfolding step stop on_connack handle_conn_ack handle_close handle_error
  stopped_step now starts s n (h, c) = ground (arith, n)
  stopped_step now stops s n (h, c) =
      let still = record s { short_status = stopped; is_stopped = true; waits = 0 } in
      (disconnected still, disconnect_lem last others still c, (refl, c))
  stopped_step now (reloads rows) s n (h, c) =
      (disconnected s, stopped_reload now rows s (h, c), (h, c))
  stopped_step now (connacks true subscribe) s n (h, c) =
      let open_ = record s {
        retries = 0;
        short_status = connected;
        last_reloaded = now;
        nb_downloads = 0;
      } in
      let (stays, same, stations) = subscribe_all_keeps subscribe s.stations open_ in
      (handle_conn_ack subscribe open_, refl, (stays ∙ h, same ∙ c))
  stopped_step now (connacks false subscribe) s n (h, c) = (_, refl, (h, c))
  stopped_step now closes s n (h, c) =
      (record s { short_status = connection_closed }, rw h refl, (h, c))
  stopped_step now errors s n (h, c) = (record s { short_status = error }, rw h refl, (h, c))
  stopped_step now (publishes topic contents) s n (h, c) = (_, refl, (h, c))
  stopped_step now timer_expires s n (h, c) = elim (Bool-cases (leb s.expires_at now)) [
    | inl due ↦ (record s { queued = s.queued + s.waits; waits = 0 }, rw due refl, (h, c))
    | inr early ↦ (s, rw early refl, (h, c))
  ]
  stopped_step now handler_runs s n (h, c) = stopped_handler now s.queued s refl (h, c)

  -- A stopped subscriber that has connected before makes no connection and stays stopped, whatever the
  -- inputs but a start, reloads, waits that end and late errors included, and never calls the null pointer.
  pub stopped_connects_nothing :
      (inputs : List (ℕ × Input)) (s : MqttSubscriber)
      → All (λ i. is_start i.1 ≡ false) inputs
      → s.is_stopped ≡ true
      → s.connections ≡ last ∷ others
      → (s' : MqttSubscriber) × (run station_details inputs s ≡ some s')
        × (s'.is_stopped ≡ true)
        × (s'.connections ≡ last ∷ others)
  unfolding run
  stopped_connects_nothing [] s n h c = (s, refl, h, c)
  stopped_connects_nothing ((now, i) ∷ rest) s (first, later) h c =
      let (s', steps, (stays, same)) = stopped_step now i s first (h, c) in
      let (end, runs, still, none_new) = stopped_connects_nothing rest s' later stays same in
      (end, rw (run, steps) runs, still, none_new)
