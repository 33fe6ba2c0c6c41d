-- ===== src/Gateway/Started.antt =====
-- src/edgebox.c, src/mqtt.c: the gateway that `main` has started.
pub mod Examples
use edgebox.Prelude.{
  ℕ, ◌≡◌, ◌≤◌, Bool, true, false, not, Option, List, Bool-cases, inl, inr, length, if◌then◌else◌,
}
use edgebox.Prelude.CInt.{ℤ, pos, negsuc, eq_int, is_negative}
use edgebox.Prelude.Run.{Run, ok, bind-ok, fault}
use edgebox.Json.{CJson}
use edgebox.Logger.{Flog, logging_init}
use edgebox.Switches.{Switches, read_switches}
use edgebox.Connection.{Topics, topics_of, mqtt_conn_init, init_websocket}
use edgebox.Connection.Outcomes.{NamesFit}
use edgebox.Connection.Returned.{mqtt_conn_init-returned}
use edgebox.Startup.{Settings, MainCall, read_config, drop_root_priviledge}
use edgebox.Startup.Main.{
  World, Running, MainEnd, returns, loops, Round, closed_log, no_switches, no_topics, connect_all,
  main_start, main_loop,
}
use edgebox.Startup.Main.Reached.{connections, disconnected, main_loop_keeps}
use edgebox.Uplink.Numbering.{Numbered}
use edgebox.Gateway.{Gateway, Reach}
use edgebox.Gateway.Reports.{reports_later}
use edgebox.Gateway.Progress.{Later}
use edgebox.Report.{MqttMessage}
use edgebox.Prelude.{◌++◌}

-- The topics are those of the device, whose names fit.
abbrev OfDevice : Running → Type 0
OfDevice r =
    (r.topics ≡ topics_of r.settings.eb_product_key r.settings.eb_device_name)
    × NamesFit r.settings.eb_product_key r.settings.eb_device_name

module _ (w : World) (settings : Settings) (flog : Flog) (switches : Switches) (r : Running) where
  returned : ok (returns (negsuc 0)) ≡ ok (loops r) → OfDevice r
  returned e = cc

  OfDevice-same : (s : Running) → OfDevice s → ok (loops s) ≡ ok (loops r) → OfDevice r
  OfDevice-same s d e = let same : s ≡ r = cc in rw (← same) d

  abbrev with_topics : Topics → Running
  with_topics topics = record {
    settings = settings;
    uid = drop_root_priviledge w.getpwnam w.setuid_ok settings.edgebox_username w.uid;
    flog = flog;
    switches = switches;
    topics = topics;
  }

  -- Behind the connection to the hub.
  abbrev connected : ℤ × Topics → Run MainEnd
  connected (rc, topics) =
      if is_negative rc
      then ok (returns (negsuc 0))
      else if not (eq_int w.query_created (pos 0))
      then ok (returns (negsuc 0))
      else ok (loops (with_topics topics))

  connect_all-OfDevice : connect_all w settings flog switches ≡ ok (loops r) → OfDevice r
  unfolding connect_all
  connect_all-OfDevice e = elim (Bool-cases (is_negative (init_websocket w.edgebox_ws))) [
    | inl no_ws ↦ returned (rw no_ws at e)
    | inr seen ↦ elim (Bool-cases (eq_int w.handler_created (pos 0))) [
      | inr no_thread ↦ returned (rw (seen, no_thread) at e)
      | inl handler ↦
          let ((rc, topics), run, e₁) =
            bind-ok
              (mqtt_conn_init w.hub_calls settings.eb_product_key settings.eb_device_name no_topics)
              connected (rw (seen, handler) at e) in
          elim (Bool-cases (is_negative rc)) [
            | inl failed ↦ returned (rw failed at e₁)
            | inr good ↦ elim (Bool-cases (eq_int w.query_created (pos 0))) [
              | inr no_thread ↦ returned (rw (good, no_thread) at e₁)
              | inl query ↦
                  let (fit, same) =
                    mqtt_conn_init-returned w.hub_calls settings.eb_product_key
                      settings.eb_device_name no_topics rc topics run good in
                  OfDevice-same (with_topics topics) (same, fit) (rw (good, query) at e₁)
            ]
          ]
    ]
  ]

main_start-OfDevice :
    (J : CJson) (w : World) (r : Running) → main_start J w ≡ ok (loops r) → OfDevice r
unfolding main_start
main_start-OfDevice J w r e =
    let (settings, _, e₁) = bind-ok (read_config w.node_found w.cwd w.edgebox_ini) _ e in
    let (flog, _, e₂) =
      bind-ok (logging_init w.log_calls settings.s_log_file (closed_log w.disk)) _ e₁ in
    let (switches, _, e₃) = bind-ok (read_switches J w.memory w.switches_json no_switches) _ e₂ in
    connect_all-OfDevice w settings flog switches r e₃

-- When `main` has come to its loop, and so the connections of the main thread have set the topic, the
-- loop goes through every sequence of rounds and leaves the gateway as it is, with one connection in
-- each round without one. Whatever the threads did before and do from there on, with the switches, the
-- settings and the topic that `main` came to the loop with: what is published from there on stands under
-- the topic of the product and the device of the settings, with the numbers that follow those of what
-- was published before.
pub started_gateway_reports :
    (J : CJson) (w : World) (r : Running) (lws_pre : ℕ) (rounds : List Round) {u v : Gateway}
    → main_start J w ≡ ok (loops r)
    → Reach J r.switches r.settings.weather lws_pre r.topics.eb_pub_topic u
    → u.reporter.eb_pub_topic ≡ r.topics.eb_pub_topic
    → Later J r.switches r.settings.weather lws_pre r.topics.eb_pub_topic u v
    → ((calls : List MainCall) × (main_loop rounds r ≡ ok (calls, r))
        × (connections calls ≡ disconnected rounds))
      × ((new : List MqttMessage) × (v.reporter.published ≡ u.reporter.published ++ new)
          × Numbered
              (topics_of r.settings.eb_product_key r.settings.eb_device_name).eb_pub_topic
              (length u.reporter.published)
              new)
started_gateway_reports J w r lws_pre rounds e reached now later =
    let (same, fit) = main_start-OfDevice J w r e in
    let (new, split, numbered) =
      reports_later J r.switches r.settings.weather lws_pre r.topics.eb_pub_topic reached now
        later in
    (main_loop_keeps rounds r same fit, (new, split, rw same at numbered))
