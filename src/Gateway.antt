-- ===== src/Gateway.antt =====
-- src/mqtt.c, src/wsclient.c, src/statusquery.c: the running gateway. The callback of the hub, the
-- thread that handles its messages, the thread of the queries and the callback of the websocket share
-- the two queues, and interleave at their critical sections. The callback of the websocket alone
-- publishes reports, under the topic that the main thread sets when it connects to the hub.
pub mod Priority
pub mod Stored
pub mod Order
pub mod Reports
pub mod Started
pub mod Progress
pub mod Drained
pub mod Sample
pub mod Examples
use edgebox.Prelude.{
  ℕ, ◌≡◌, Bool, true, false, Option, none, some, List, [], ◌∷◌, ◌++◌, ◌==◌, if◌then◌else◌,
}
use edgebox.Prelude.Text.{Text}
use edgebox.Prelude.Run.{Run, ok}
use edgebox.Json.{CJson}
use edgebox.Memory.{Queue}
use edgebox.Switches.{Switches}
use edgebox.Report.{Reporter}
use edgebox.Uplink
use edgebox.Uplink.{Config, Stack}
use edgebox.WsQueue
use edgebox.WsQueue.{EbWsMsg, client_receive, ws_callback}
use edgebox.HubQueue.{Hub, iot_msg_handler_step}
use edgebox.HubQueue.Order.{emitted}
use edgebox.HubQueue.Drain.{History}
use edgebox.HubQueue.Drain
use edgebox.WsQueue.Refinement.{Session, Write}
use edgebox.WsQueue.Refinement
use edgebox.Downlink.{Send, Surroundings, process_single_iot_hub_msg, send_weather_info_request}

-- What a function that takes a C string sees of the bytes: those up to the first NUL.
unfoldable pub c_string : Text → Text
c_string [] = []
c_string (c ∷ s) = if c == 0 then [] else c ∷ c_string s

-- A call of `eb_ws_write`, and whether memory was found for the message.
pub record Attempt : Type 0 where
  pub send : Send
  pub stored : Bool

-- Both queues with their histories; the calls of `eb_ws_write` that the handling of the messages came
-- to, those made already, and those that the handling of the current message has still to make; what
-- was published, and the texts that the server sent.
pub record Gateway : Type 0 where
  pub hub : History
  pub session : Session
  pub commands : List Send
  pub done : List Attempt
  pub todo : List Send
  pub reporter : Reporter
  pub server_texts : List Text

-- `eb_pub_topic` is an array of zeros until the first connection to the hub is made.
abbrev pub begin : Gateway
begin = record {
  hub = Drain.begin;
  session = Refinement.begin;
  commands = [];
  done = [];
  todo = [];
  reporter = record { eb_pub_topic = []; msgid_in_payload = 0; msgid = 0; published = [] };
  server_texts = [];
}

-- Whether a write finds memory.
abbrev pub is_stored :
    {lws_pre : ℕ} {m : Text} {priority : Bool} {s t : Session} → Write lws_pre m priority s t → Bool
is_stored (Write.write p acts q ne free fits e) = true
is_stored (Write.no_node buffer acts q e) = false
is_stored (Write.no_buffer p acts q free e) = false

module _ (J : CJson) (switches : Switches) (config : Config) (lws_pre : ℕ) where
  -- What the body of `iot_msg_handler_thread` does with what a step hands over.
  unfoldable pub handling : (ℕ → Bool) → Surroundings → Option Text → Run (List Send)
  unfolding c_string
  handling found env none = ok []
  handling found env (some msg) =
      process_single_iot_hub_msg J switches.switch_list found env (some (c_string msg))

  -- `mqtt_conn_init` of the main thread has written the topic of the device, at any time and again at
  -- each new connection; the hub's callback; a step of the handler, which has no write left to do; its
  -- next write; a write of the thread of the queries; a writeable callback; a callback with a text from
  -- the server.
  pub data Step (topic : Text) (w : Gateway) : Gateway → Type 0 where
    connects : Step topic w (record w { reporter = record w.reporter { eb_pub_topic = topic } })
    received : {h : History} → Drain.Callback w.hub h → Step topic w (record w { hub = h })
    handle :
        (found : ℕ → Bool) (env : Surroundings) (out : Option Text) (s : Hub) (sends : List Send)
        → w.todo ≡ []
        → iot_msg_handler_step w.hub.hub ≡ some (out, s)
        → handling found env out ≡ ok sends
        → Step topic w (record w {
          hub = record w.hub { hub = s; handled = w.hub.handled ++ emitted out };
          commands = w.commands ++ sends;
          todo = sends;
        })
    commanded :
        {t : Session} (send : Send) (rest : List Send)
        → w.todo ≡ send ∷ rest
        → (done : Write lws_pre send.text send.priority w.session t)
        → Step topic w (record w {
          session = t;
          done = w.done ++ record { send = send; stored = is_stored done } ∷ [];
          todo = rest;
        })
    queried :
        {t : Session} (env : Surroundings) (send : Send)
        → send_weather_info_request J env config.weather_lorasn config.wind_dir_485_addr
          ≡ ok (send ∷ [])
        → Write lws_pre send.text send.priority w.session t
        → Step topic w (record w { session = t })
    writeable :
        {t : Session}
        → Refinement.Callback lws_pre w.session t
        → Step topic w (record w { session = t })
    reported :
        (env : Stack) (room : J.Item → ℕ) (text : Text) (q : Queue EbWsMsg) (r : Reporter)
        → ws_callback lws_pre (client_receive text) w.session.queue
          ≡ some (WsQueue.ws_receive_msg text ∷ [], q)
        → Uplink.ws_receive_msg J env switches.plc_list config room text w.reporter ≡ ok r
        → Step topic w (record w {
          session = record w.session { queue = q };
          reporter = r;
          server_texts = w.server_texts ++ text ∷ [];
        })

  pub data Reach (topic : Text) : Gateway → Type 0 where
    here : Reach topic begin
    next : {w v : Gateway} → Reach topic w → Step topic w v → Reach topic v
