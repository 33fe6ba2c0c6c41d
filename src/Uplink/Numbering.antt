-- ===== src/Uplink/Numbering.antt =====
-- src/wsclient.c, src/mqtt.c: the identifiers of the messages that are published.
pub mod Examples
use edgebox.Prelude.{
  ℕ, zero, suc, ◌+◌, ◌-◌, ◌*◌, ◌/◌, ◌%◌, ◌≤◌, ◌≡◌, ◌⊎◌, inl, inr, refl, sym, ap, subst, ◌∙◌, Bool,
  true, false, not, ◌&&◌, Option, none, some, List, [], ◌∷◌, ◌++◌, take, length, length-append,
  get_elem?, leb, ltb, if◌then◌else◌, arith, Bool-cases, Option-cases,
}
use edgebox.Prelude.CInt.{ℤ, pos, eq_int, u16, s16}
use edgebox.Prelude.Text.{Text, codes, text_case_eq, strtol16}
use edgebox.Prelude.Run.{Run, ok, ◌>>=◌, ◌>>◌, defined, deref, bind-ok}
use edgebox.Json.{CJson}
use edgebox.Hex.{ascii2hex}
use edgebox.Switches.{PlcNode, get_plc_node}
use edgebox.Report.{
  MqttMessage, Reporter, eb_publish, dirs, add_switches, eb_report_temp_hum, eb_report_wind_dir,
  eb_report_wind_speed, eb_report_switch_data_for_loranode,
}
use edgebox.Uplink.{
  Config, Stack, field4, dir_text, eb_ws_parse_weather_data, eb_ws_parse_non_weather_data,
  overwrite, ws_receive_msg, test_devaddr, test_data, hex_size,
}
use edgebox.Uplink.Published.{counted, PublishesOne, ok_injective, ws_receive_msg-PublishesOne}

-- A text from the server, with what is there besides the program.
pub record Arrival (Item : Type 0) : Type 0 where
  pub env : Stack
  pub room : Item → ℕ
  pub json_text : Text

-- The messages carry the numbers from `n` on, modulo the range of an unsigned short, and the topic.
abbrev pub Numbered : Text → ℕ → List MqttMessage → Type 0
Numbered topic n [] = Unit {0}
Numbered topic n (m ∷ ms) = (m.id ≡ n % 65536) × (m.topic ≡ topic) × Numbered topic (n + 1) ms

pub Numbered-snoc :
    (topic : Text) (n : ℕ) (ms : List MqttMessage) (payload : Text)
    → Numbered topic n ms
    → Numbered topic n
        (ms ++ record { topic = topic; id = (n + length ms) % 65536; payload = payload } ∷ [])
Numbered-snoc topic n [] payload h = (omega arith, refl, tt)
Numbered-snoc topic n (m ∷ ms) payload (id, same, rest) =
    let later : n + 1 + length ms ≡ n + suc (length ms) = omega arith in
    (id, same, rw later at (Numbered-snoc topic (n + 1) ms payload rest))

-- What was published so far has the numbers from 0 on, and no more reports were published than begun.
pub record IsNumbered (topic : Text) (r : Reporter) : Type 0 where
  pub topic_same : r.eb_pub_topic ≡ topic
  pub next : r.msgid ≡ length r.published
  pub numbered : Numbered topic 0 r.published
  pub begun : length r.published ≤ r.msgid_in_payload

pub PublishesOne-IsNumbered :
    (topic : Text) (r t : Reporter) → PublishesOne r t → IsNumbered topic r → IsNumbered topic t
unfolding eb_publish
PublishesOne-IsNumbered topic r t (inl same) v = rw same v
PublishesOne-IsNumbered topic r t (inr (inl same)) v = rw same (record {
  topic_same = v.topic_same;
  next = v.next;
  numbered = v.numbered;
  begun = omega (arith, v.begun);
})
PublishesOne-IsNumbered topic r t (inr (inr (payload, same))) v =
    let m : MqttMessage = record {
      topic = r.eb_pub_topic;
      id = r.msgid % 65536;
      payload = payload;
    } in
    let longer : length (r.published ++ m ∷ []) ≡ length r.published + 1 =
      length-append r.published (m ∷ []) in
    let number : 0 + length r.published ≡ r.msgid = omega (arith, v.next) in
    rw same (record {
      topic_same = v.topic_same;
      next = omega (arith, longer, v.next);
      numbered = rw (v.topic_same, ← number) (Numbered-snoc topic 0 r.published payload v.numbered);
      begun = omega (arith, longer, v.begun);
    })

pub PublishesOne-length :
    (r t : Reporter) → PublishesOne r t → length t.published ≤ length r.published + 1
unfolding eb_publish
PublishesOne-length r t (inl same) = rw same (omega arith)
PublishesOne-length r t (inr (inl same)) = rw same (omega arith)
PublishesOne-length r t (inr (inr (payload, same))) =
    rw same (omega (arith, length-append {A = MqttMessage} r.published))

module _ (J : CJson) (plcs : List PlcNode) (config : Config) where
  -- The texts that the callback hands over, one after another.
  unfoldable pub receive_all : List (Arrival J.Item) → Reporter → Run Reporter
  receive_all [] r = ok r
  receive_all (a ∷ as') r = do
    r' ← ws_receive_msg J a.env plcs config a.room a.json_text r
    receive_all as' r'

  receive_all-IsNumbered :
      (topic : Text) (as' : List (Arrival J.Item)) (r t : Reporter)
      → receive_all as' r ≡ ok t
      → IsNumbered topic r
      → IsNumbered topic t × (length t.published ≤ length r.published + length as')
  unfolding receive_all
  receive_all-IsNumbered topic [] r t e v =
      let same : r ≡ t = ok_injective e in rw (← same) (v, omega arith)
  receive_all-IsNumbered topic (a ∷ as') r t e v =
      let (r', first, e₁) = bind-ok (ws_receive_msg J a.env plcs config a.room a.json_text r) _ e in
      let one = ws_receive_msg-PublishesOne J a.env plcs config a.room a.json_text r r' first in
      let (v', few) =
        receive_all-IsNumbered topic as' r' t e₁ (PublishesOne-IsNumbered topic r r' one v) in
      (v', omega (arith, few, PublishesOne-length r r' one))

  -- Whatever texts the server sends, one after another, if the code gets through them it has published
  -- one message for each at most, all under the topic of the device, with the numbers from 0 on, modulo
  -- 65536, as identifiers.
  pub receive_all-Numbered :
      (as' : List (Arrival J.Item)) (topic : Text) (t : Reporter)
      → receive_all as'
          (record { eb_pub_topic = topic; msgid_in_payload = 0; msgid = 0; published = [] })
        ≡ ok t
      → Numbered topic 0 t.published × (length t.published ≤ length as')
  receive_all-Numbered as' topic t e =
      let (v, few) =
        receive_all-IsNumbered topic as' _ t e
          (record { topic_same = refl; next = refl; numbered = tt; begun = omega arith }) in
      (v.numbered, omega (arith, few))
