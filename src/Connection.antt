-- ===== src/Connection.antt =====
-- The connections: `mqtt_conn_init` of src/mqtt.c, `init_websocket` and `ws_evloop_run` of
-- src/wsclient.c. The MQTT client, libwebsockets and the signature of the hub are not part of the
-- program: what their calls return is a parameter.
pub mod Outcomes
pub mod Returned
pub mod Examples
use edgebox.Prelude.{
  ℕ, zero, suc, ◌+◌, ◌≡◌, Bool, true, false, Option, none, some, List, [], ◌∷◌, ◌++◌, ◌==◌, ltb,
  length, if◌then◌else◌,
}
use edgebox.Prelude.CInt.{ℤ, pos, negsuc, eq_int, is_negative}
use edgebox.Prelude.Text.{Text, codes}
use edgebox.Prelude.Run.{Run, ok, ◌>>=◌, ◌>>◌, defined}
use edgebox.Memory.{Ptr, null}

-- What the calls of a connection return.
pub record HubCalls : Type 0 where
  pub aiot_mqtt_sign : ℤ
  pub network_connect : ℤ
  pub mqtt_connect : ℤ
  pub mqtt_subscribe : ℤ

pub record Topics : Type 0 where
  pub eb_pub_topic : Text
  pub eb_sub_topic : Text

-- `%s`, which prints NULL as a word.
abbrev printed : Option Text → Text
printed none = codes "(null)"
printed (some t) = t

abbrev pub hub_host : Text → Text
hub_host product_key = product_key ++ codes ".iot-as-mqtt.cn-shanghai.aliyuncs.com"

abbrev pub topics_of : Text → Option Text → Topics
topics_of product_key device_name =
    let device = codes "/sys/" ++ (product_key ++ (codes "/" ++ printed device_name)) in
    record {
      eb_pub_topic = device ++ codes "/thing/event/property/post";
      eb_sub_topic = device ++ codes "/thing/service/property/set";
    }

abbrev pub topic_size : ℕ
topic_size = 256

-- `mqtt_conn_init`: what it returns, and the topics. The arrays for the host and the topics have
-- fixed sizes.
unfoldable pub mqtt_conn_init : HubCalls → Text → Option Text → Topics → Run (ℤ × Topics)
mqtt_conn_init calls product_key device_name old =
    defined (ltb (length (hub_host product_key)) 128)
    >> (let topics = topics_of product_key device_name in
        if is_negative calls.aiot_mqtt_sign
        then ok (negsuc 0, old)
        else if is_negative calls.network_connect
        then ok (negsuc 0, old)
        else if eq_int calls.mqtt_connect (pos 0)
        then defined (ltb (length topics.eb_pub_topic) topic_size)
          >> defined (ltb (length topics.eb_sub_topic) topic_size)
          >> ok (if eq_int calls.mqtt_subscribe (pos 0) then pos 0 else negsuc 0, topics)
        else ok (negsuc 0, old))

-- `init_websocket` behind the start of the thread. `seen n` tells whether `edgebox_ws` is set when it
-- is tested for the `n`th time; the loop gives up when the counter is past 20.
unfoldable pub wait_websocket : (ℕ → Bool) → ℕ → ℕ → ℤ
wait_websocket seen zero cnt = negsuc 0
wait_websocket seen (suc left) cnt =
    let rest = wait_websocket seen left (cnt + 1) in if seen cnt then pos 0 else rest

unfoldable pub init_websocket : (ℕ → Bool) → ℤ
unfolding wait_websocket
init_websocket seen = wait_websocket seen 21 0

-- What a round of `ws_evloop_run` calls.
pub data LoopCall : Type 0 where
  lws_client_connect_via_info lws_service : LoopCall

-- One round, where `connected` is what a connection would give: the calls, and `edgebox_ws`.
unfoldable pub ws_evloop_round : Ptr → Ptr → List LoopCall × Ptr
ws_evloop_round connected edgebox_ws =
    if edgebox_ws == null
    then (lws_client_connect_via_info ∷ lws_service ∷ [], connected)
    else (lws_service ∷ [], edgebox_ws)

-- The rounds of `ws_evloop_run`; the callbacks that run in them do not set `edgebox_ws`.
unfoldable pub ws_evloop_run : List Ptr → Ptr → List LoopCall
unfolding ws_evloop_round
ws_evloop_run [] edgebox_ws = []
ws_evloop_run (connected ∷ later) edgebox_ws =
    let (calls, ws) = ws_evloop_round connected edgebox_ws in calls ++ ws_evloop_run later ws
