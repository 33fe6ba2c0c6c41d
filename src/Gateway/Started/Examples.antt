-- ===== src/Gateway/Started/Examples.antt =====
-- A start of the program, and a text from the server behind it.
use edgebox.Prelude.{◌≡◌, refl, none, List, [], ◌∷◌, if◌then◌else◌, length, arith, inl, inr}
use edgebox.Prelude.Text.{codes, text_eq, text_case_eq, to_lower, strtol16}
use edgebox.Prelude.Run.{Run, ok}
use edgebox.Json.{CJson}
use edgebox.Switches.{read_items, read_switches}
use edgebox.Switches.Examples
use edgebox.Switches.Examples.{both, both_loaded, roomy, switches_json, nothing_loaded}
use edgebox.Connection.{topics_of}
use edgebox.Report.{Reporter, eb_report_temp_hum}
use edgebox.WsQueue.{ws_callback}
use edgebox.Uplink.{ws_receive_msg, eb_ws_parse_weather_data}
use edgebox.Startup.{MainCall, add_loras}
use edgebox.Startup.Examples.{settings, configured}
use edgebox.Startup.Main.{Running, loops, main_start, main_loop}
use edgebox.Startup.Main.Examples.{world, flog, opened, names_fit, rounds}
use edgebox.Startup.Main.Reached.{started, connections, disconnected, main_start_loops_iff}
use edgebox.Uplink.Numbering.{Numbered}
use edgebox.Gateway.{Gateway, begin, reported, connects, Reach, here, next}
use edgebox.Gateway.Progress.{Later, stay, after}
use edgebox.Report.{MqttMessage}
use edgebox.Prelude.{◌++◌}
use edgebox.Gateway.Sample
use edgebox.Gateway.Sample.{message, stack, room}
use edgebox.Gateway.Started.{started_gateway_reports}

-- The library reads the file of the switches, and else the message of the server.
abbrev library : CJson
library = record Examples.library {
  parse = λ t. if text_eq t message then Sample.library.parse t else Examples.library.parse t;
}

abbrev running : Running
running = started world settings flog both

read_switches-both_again : read_switches library roomy switches_json nothing_loaded ≡ ok both
unfolding read_switches text_eq read_items
read_switches-both_again = both_loaded

main_started : main_start library world ≡ ok (loops running)
main_started =
    elim (main_start_loops_iff library world settings flog both configured opened
      read_switches-both_again names_fit) [
        | inl (run, _) ↦ run
        | inr (_, failed) ↦
            absurd (failed ((2, omega arith, refl), refl, (refl, refl, refl, refl), refl))
      ]

abbrev reporter_of : Run Reporter → Reporter
reporter_of (ok r) = r
reporter_of _ = begin.reporter

-- The first connection was made before.
abbrev connected : Gateway
connected = record begin {
  reporter = record begin.reporter { eb_pub_topic = running.topics.eb_pub_topic };
}

one_reported : Reporter
unfolding settings ws_receive_msg eb_ws_parse_weather_data text_eq text_case_eq to_lower strtol16
one_reported =
    reporter_of
      (ws_receive_msg library stack both.plc_list settings.weather room message connected.reporter)

abbrev gateway : Gateway
gateway = record begin { reporter = one_reported; server_texts = message ∷ [] }

report_published : length one_reported.published ≡ 1
unfolding one_reported eb_report_temp_hum add_loras
report_published = refl

connected-Reach : Reach library both settings.weather 16 running.topics.eb_pub_topic connected
connected-Reach = next here connects

gateway-Later : Later library both settings.weather 16 running.topics.eb_pub_topic connected gateway
unfolding one_reported ws_callback add_loras
gateway-Later = after (reported stack room message _ one_reported refl refl) stay

started_gateway_reports_example :
    ((calls : List MainCall) × (main_loop rounds running ≡ ok (calls, running))
      × (connections calls ≡ disconnected rounds))
    × ((new : List MqttMessage) × (one_reported.published ≡ [] ++ new)
        × Numbered (topics_of (codes "key") none).eb_pub_topic 0 new)
unfolding settings add_loras
started_gateway_reports_example =
    started_gateway_reports library world running 16 rounds main_started connected-Reach refl
      gateway-Later
