-- ===== src/Mqtt/Reload.antt =====
-- The connections that a reload makes.
use meteodata_server.Base.{
  ℕ, ◌+◌, ◌≡◌, ◌≤◌, arith, ◌∙◌, refl, ap, true, false, List, [], ◌∷◌, Bytes, some, if◌then◌else◌,
}
use meteodata_server.Mqtt.{
  MqttSubscriber, Map, Station, StationDetails, MqttStation, reloads, connacks, closes,
  timer_expires, handler_runs, run, step, start, handle_close, on_connack, handle_conn_ack,
  subscribe_all, subscribe_to, connected, connection_closed,
}
use meteodata_server.Mqtt.Retries.{run-step, expiry_lem, restart_lem}
use meteodata_server.Mqtt.Stops.{disconnected, reload_lem, subscribe_all_keeps}
use meteodata_server.Mqtt.Stations.{add_stations_keeps, reloaded}

due_at : {m n : ℕ} → m ≡ n → m ≤ n
due_at e = omega (arith, e)

subscribe_all_timer :
    (subscribe : Bytes → ℕ) (m : Map Station) (s : MqttSubscriber)
    → let s' = subscribe_all subscribe m s in
      (s'.queued ≡ s.queued) × (s'.waits ≡ s.waits) × (s'.expires_at ≡ s.expires_at)
unfolding subscribe_all
subscribe_all_timer subscribe [] s = (refl, refl, refl)
subscribe_all_timer subscribe ((topic, station) ∷ rest) s =
    subscribe_all_timer subscribe rest (subscribe_to subscribe topic s)

module _ (station_details : ℕ → StationDetails) where
  -- A reload of a subscriber that is not stopped, has connected before and has no handler queued connects
  -- twice: once at once, and once more 10 s after the client that it has disconnected is closed, though
  -- the new connection has been accepted.
  pub reload_connects_twice :
      (last : ℕ) (others : List ℕ) (now closed later : ℕ) (rows : List MqttStation)
      (subscribe : Bytes → ℕ) (s : MqttSubscriber)
      → s.is_stopped ≡ false
      → s.queued ≡ 0
      → s.connections ≡ last ∷ others
      → let t = closed + 10 in
        (s' : MqttSubscriber) × (run station_details
            ((now, reloads rows)
              ∷ (closed, closes)
              ∷ (later, connacks true subscribe)
              ∷ (t, timer_expires)
              ∷ (t, handler_runs)
              ∷ [])
            s
          ≡ some s')
        × (s'.connections ≡ t ∷ now ∷ last ∷ others)
  unfolding run step start handle_close on_connack handle_conn_ack
  reload_connects_twice last others now closed later rows subscribe s h q c =
      let t = closed + 10 in
      let r = reloaded station_details now rows s in
      let waiting = record r { short_status = connection_closed; expires_at = t; waits = 1 } in
      let open_ = record waiting {
        retries = 0;
        short_status = connected;
        last_reloaded = later;
        nb_downloads = 0;
      } in
      let all = subscribe_all subscribe r.stations open_ in
      let due = record all { queued = 1; waits = 0 } in
      let (kept, subscribed, none_queued) =
        add_stations_keeps station_details rows (record (disconnected s) { stations = [] }) in
      let (stays, same, topics) = subscribe_all_keeps subscribe r.stations open_ in
      let (queued, waits, expires_at) = subscribe_all_timer subscribe r.stations open_ in
      let last_two = (t, timer_expires) ∷ (t, handler_runs) ∷ [] in
      let last_three = (later, connacks true subscribe) ∷ last_two in
      (
        start t (record due { queued = 0 }),
        run-step station_details now (reloads rows) ((closed, closes) ∷ last_three) s r (
              reload_lem station_details last others now rows s c
              ∙ ap (λ b. some (if b then disconnected s else r)) h)
            ∙ run-step station_details closed closes last_three r waiting refl
            ∙ run-step station_details later (connacks true subscribe) last_two waiting all refl
            ∙ run-step station_details t timer_expires ((t, handler_runs) ∷ []) all due (
                expiry_lem station_details t all (queued ∙ none_queued ∙ q) waits
                  (due_at expires_at))
            ∙ run-step station_details t handler_runs [] due (start t (record due { queued = 0 }))
                (restart_lem station_details t due stays refl (due_at expires_at)),
        ap (◌∷◌ t) (same ∙ ap (◌∷◌ now) (kept ∙ c)),
      )
