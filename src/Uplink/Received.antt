-- ===== src/Uplink/Received.antt =====
-- src/wsclient.c: `ws_receive_msg`, whatever the server sends.
use edgebox.Prelude.{ℕ, ◌<◌, ◌≡◌, sym, ◌∙◌, some, List, length, lt→ltb, if◌then◌else◌}
use edgebox.Prelude.Text.{Text, codes, text_case_eq}
use edgebox.Prelude.Run.{Run, ◌>>=◌, deref}
use edgebox.Json.{CJson}
use edgebox.Switches.{PlcNode}
use edgebox.Report.{Reporter}
use edgebox.Uplink.{
  Config, Stack, test_devaddr, test_data, eb_ws_parse_weather_data, eb_ws_parse_non_weather_data,
  ws_receive_msg,
}

module _ (J : CJson) where
  -- A message with both fields, both of them texts, in blocks that take the two texts of the test.
  pub record Complete (room : J.Item → ℕ) (json_text : Text) : Type 0 where
    pub root : J.Item
    pub devaddr : J.Item
    pub payload : J.Item
    pub parsed : J.parse json_text ≡ some root
    pub has_devaddr : J.get_object_item root (codes "devaddr") ≡ some devaddr
    pub has_data : J.get_object_item root (codes "data") ≡ some payload
    pub devaddr_text : (t : Text) × (J.valuestring devaddr ≡ some t)
    pub data_text : (t : Text) × (J.valuestring payload ≡ some t)
    pub devaddr_room : length test_devaddr < room devaddr
    pub data_room : length test_data < room payload

  -- What is done for the two texts of the test.
  abbrev test_outcome : Stack → List PlcNode → Config → Reporter → Run Reporter
  test_outcome env plcs config r = do
    weather_lorasn ← deref config.weather_lorasn
    if text_case_eq weather_lorasn test_devaddr
        then eb_ws_parse_weather_data config env test_data r
        else eb_ws_parse_non_weather_data J env plcs test_devaddr test_data r

  received_as_test :
      (env : Stack) (plcs : List PlcNode) (config : Config) (room : J.Item → ℕ) (json_text : Text)
      (r : Reporter)
      → Complete room json_text
      → ws_receive_msg J env plcs config room json_text r ≡ test_outcome env plcs config r
  unfolding ws_receive_msg
  received_as_test env plcs config room json_text r c =
      let (t, text) = c.devaddr_text in
      let (u, text') = c.data_text in
      rw (
        c.parsed,
        ws_receive_msg,
        c.has_devaddr,
        c.has_data,
        text,
        lt→ltb _ _ c.devaddr_room,
        text',
        lt→ltb _ _ c.data_room,
      )

  -- Any two messages with both fields, in blocks with room for the texts of the test, have the same
  -- outcome: what is reported does not depend on what the server sent.
  pub ws_receive_msg_same :
      (env : Stack) (plcs : List PlcNode) (config : Config) (room : J.Item → ℕ) (one other : Text)
      (r : Reporter)
      → Complete room one
      → Complete room other
      → ws_receive_msg J env plcs config room one r ≡ ws_receive_msg J env plcs config room other r
  ws_receive_msg_same env plcs config room one other r c d =
      received_as_test env plcs config room one r c
      ∙ sym (received_as_test env plcs config room other r d)
