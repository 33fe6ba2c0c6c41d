-- ===== src/Startup/Main/Reached.antt =====
-- src/edgebox.c: when `main` comes to its loop, and what the loop keeps.
use edgebox.Prelude.{
  ℕ, suc, ◌≤◌, ◌≡◌, ◌≢◌, ◌⊎◌, inl, inr, refl, sym, ap, subst, true, false, List, [], ◌∷◌, ◌++◌,
  if◌then◌else◌, arith, Bool-cases,
}
use edgebox.Prelude.CInt.{ℤ, pos, negsuc, eq_int, eq_int→eq, eq_int_self}
use edgebox.Prelude.Run.{ok}
use edgebox.Json.{CJson}
use edgebox.Logger.{Flog, logging_init}
use edgebox.Switches.{Switches, read_switches}
use edgebox.Connection.{topics_of, mqtt_conn_init}
use edgebox.Connection.Outcomes.{
  AllSucceed, NamesFit, mqtt_conn_init_iff, mqtt_conn_init_again, init_websocket_iff,
  init_websocket_cases,
}
use edgebox.Startup.{
  Settings, MainCall, mqtt_yield, mqtt_disconnect, network_disconnect, call_mqtt_conn_init,
  main_poll, exit_program, main_round, read_config, drop_root_priviledge,
}
use edgebox.Startup.Main.{
  World, Running, returns, loops, Round, closed_log, no_switches, no_topics, connect_all,
  main_start, reconnect, main_loop,
}

-- The websocket is there in time, both threads are made, and every call of the connection succeeds.
abbrev pub AllStarted : World → Type 0
AllStarted w =
    ((n : ℕ) × (n ≤ 20) × (w.edgebox_ws n ≡ true))
    × (w.handler_created ≡ pos 0)
    × AllSucceed w.hub_calls
    × (w.query_created ≡ pos 0)

-- The gateway as the loop finds it.
abbrev pub started : World → Settings → Flog → Switches → Running
started w settings flog switches = record {
  settings = settings;
  uid = drop_root_priviledge w.getpwnam w.setuid_ok settings.edgebox_username w.uid;
  flog = flog;
  switches = switches;
  topics = topics_of settings.eb_product_key settings.eb_device_name;
}

-- A test of an `int` for zero.
zero_test : (z : ℤ) → (z ≡ pos 0) ⊎ ((eq_int z (pos 0) ≡ false) × (z ≢ pos 0))
zero_test z = elim (Bool-cases (eq_int z (pos 0))) [
  | inl zero ↦ inl (eq_int→eq z (pos 0) zero)
  | inr other ↦ inr (other, λ e. cc (ap (λ x. eq_int x (pos 0)) e, other, eq_int_self (pos 0)))
]

minus_one : (z : ℤ) → z ≡ negsuc 0 → z ≢ pos 0
minus_one z e e' = ground arith

module _ (w : World) (settings : Settings) (flog : Flog) (switches : Switches) where
  -- How `main` ends, and when.
  abbrev Ends : Type 0
  Ends =
      ((connect_all w settings flog switches ≡ ok (loops (started w settings flog switches)))
        × AllStarted w)
      ⊎ ((connect_all w settings flog switches ≡ ok (returns (negsuc 0))) × (¬ AllStarted w))

  connect_all-Ends : NamesFit settings.eb_product_key settings.eb_device_name → Ends
  unfolding connect_all
  connect_all-Ends v =
      let ws = init_websocket_iff w.edgebox_ws in
      let (rc, topics, run, cases, all, set) =
        mqtt_conn_init_iff w.hub_calls settings.eb_product_key settings.eb_device_name no_topics
          v in
      elim (init_websocket_cases w.edgebox_ws) [
        | inr no_ws ↦ inr (rw no_ws, λ s. minus_one _ no_ws (ws.1 s.0))
        | inl seen ↦ elim (zero_test w.handler_created) [
          | inr (no_thread, ne) ↦ inr (rw (seen, no_thread), λ s. ne s.1)
          | inl handler ↦ elim cases [
            | inr failed ↦
                inr (rw (seen, handler, run, failed), λ s. minus_one rc failed (all.1 s.2))
            | inl connected ↦ elim (zero_test w.query_created) [
              | inr (no_thread, ne) ↦
                  inr (rw (seen, handler, run, connected, no_thread), λ s. ne s.3)
              | inl query ↦ inl (
                rw (seen, handler, run, connected, query, set connected),
                (ws.0 seen, handler, all.0 connected, query),
              )
            ]
          ]
        ]
      ]

-- If the configuration is read, the log opened and the file of the switches read, and the names fit,
-- `main` comes to its end or to its loop: to the loop exactly if the websocket is there at one of the
-- first 21 tests, both threads are made and every call of the connection succeeds, and then with the
-- settings of the file, the user that remains, the log, the switches and the topics of the device; in
-- all other cases it returns -1.
pub main_start_loops_iff :
    (J : CJson) (w : World) (settings : Settings) (flog : Flog) (switches : Switches)
    → read_config w.node_found w.cwd w.edgebox_ini ≡ ok settings
    → logging_init w.log_calls settings.s_log_file (closed_log w.disk) ≡ ok flog
    → read_switches J w.memory w.switches_json no_switches ≡ ok switches
    → NamesFit settings.eb_product_key settings.eb_device_name
    → ((main_start J w ≡ ok (loops (started w settings flog switches))) × AllStarted w)
      ⊎ ((main_start J w ≡ ok (returns (negsuc 0))) × (¬ AllStarted w))
unfolding main_start
main_start_loops_iff J w settings flog switches configured opened loaded v =
    rw (configured, opened, loaded) (connect_all-Ends w settings flog switches v)

-- The rounds in which the client is not connected.
abbrev pub disconnected : List Round → ℕ
disconnected [] = 0
disconnected (round ∷ rounds) =
    let rest = disconnected rounds in if round.is_connected then rest else suc rest

-- The calls of `mqtt_conn_init` among the calls.
unfoldable pub connections : List MainCall → ℕ
connections [] = 0
connections (call_mqtt_conn_init ∷ calls) = suc (connections calls)
connections (mqtt_yield ∷ calls) = connections calls
connections (mqtt_disconnect ∷ calls) = connections calls
connections (network_disconnect ∷ calls) = connections calls
connections (main_poll ∷ calls) = connections calls
connections (exit_program ∷ calls) = connections calls

reconnect_up : (round : Round) (r : Running) → round.is_connected ≡ true → reconnect round r ≡ ok r
unfolding reconnect
reconnect_up round r up = rw up

reconnect_down :
    (round : Round) (r : Running)
    → round.is_connected ≡ false
    → r.topics ≡ topics_of r.settings.eb_product_key r.settings.eb_device_name
    → NamesFit r.settings.eb_product_key r.settings.eb_device_name
    → reconnect round r ≡ ok r
unfolding reconnect
reconnect_down round r down same v =
    let key = r.settings.eb_product_key in
    let name = r.settings.eb_device_name in
    let (rc, again) = mqtt_conn_init_again round.hub_calls key name v in
    let run : mqtt_conn_init round.hub_calls key name r.topics ≡ ok (rc, r.topics) =
      subst (λ t. mqtt_conn_init round.hub_calls key name t ≡ ok (rc, t)) (sym same) again in
    rw (down, run)

-- From a gateway with the topics of its device, whose names fit, the loop goes through every sequence
-- of rounds, whatever the connections give: it leaves the gateway as it is, and connects once in each
-- round in which the client is not connected, and in no other.
pub main_loop_keeps :
    (rounds : List Round) (r : Running)
    → r.topics ≡ topics_of r.settings.eb_product_key r.settings.eb_device_name
    → NamesFit r.settings.eb_product_key r.settings.eb_device_name
    → (calls : List MainCall) × (main_loop rounds r ≡ ok (calls, r))
      × (connections calls ≡ disconnected rounds)
unfolding main_loop main_round connections
main_loop_keeps [] r same v = ([], refl, refl)
main_loop_keeps (round ∷ rounds) r same v =
    let (calls, run, count) = main_loop_keeps rounds r same v in
    elim (Bool-cases round.is_connected) [
      | inl up ↦
          (main_round true ++ calls, rw (reconnect_up round r up, main_loop, run, up), rw up count)
      | inr down ↦ (
        main_round false ++ calls,
        rw (reconnect_down round r down same v, main_loop, run, down),
        rw down (ap suc count),
      )
    ]
