-- ===== src/Connection/Examples.antt =====
-- The connections at concrete outcomes.
use edgebox.Prelude.{ℕ, ◌≡◌, some, [], ◌∷◌, map, arith}
use edgebox.Prelude.CInt.{pos}
use edgebox.Prelude.Text.{codes}
use edgebox.Connection.{HubCalls, Topics, ws_evloop_run, lws_client_connect_via_info, lws_service}
use edgebox.Connection.Outcomes.{NamesFit, ws_evloop_run_once}

abbrev calls : HubCalls
calls = record {
  aiot_mqtt_sign = pos 0;
  network_connect = pos 0;
  mqtt_connect = pos 0;
  mqtt_subscribe = pos 0;
}

abbrev no_topics : Topics
no_topics = record { eb_pub_topic = []; eb_sub_topic = [] }

names_fit : NamesFit (codes "key") (some (codes "device"))
names_fit = record { host = omega arith; publish = omega arith; subscribe = omega arith }

ws_evloop_run_once_example :
    ws_evloop_run (5 ∷ 6 ∷ 7 ∷ []) 0
    ≡ lws_client_connect_via_info ∷ lws_service ∷ map {A = ℕ} (λ _. lws_service) (6 ∷ 7 ∷ [])
ws_evloop_run_once_example = ws_evloop_run_once 5 (6 ∷ 7 ∷ []) (λ e. omega arith)
