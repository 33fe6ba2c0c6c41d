-- ===== src/Uplink/Published.antt =====
-- src/wsclient.c, src/mqtt.c: what is published for a message from the server.
use edgebox.Prelude.{
  ℕ, ◌+◌, ◌≡◌, ◌⊎◌, inl, inr, refl, subst, Bool, ◌&&◌, List, take, length, get_elem?, leb,
  if◌then◌else◌, Bool-cases, Option-cases,
}
use edgebox.Prelude.CInt.{ℤ, eq_int}
use edgebox.Prelude.Text.{Text, codes, text_case_eq, strtol16}
use edgebox.Prelude.Run.{ok, defined, deref, bind-ok}
use edgebox.Json.{CJson, attach}
use edgebox.Hex.{ascii2hex}
use edgebox.Switches.{PlcNode, get_plc_node}
use edgebox.Report.{
  Reporter, eb_publish, dirs, add_switches, eb_report_temp_hum, eb_report_wind_dir,
  eb_report_wind_speed, eb_report_switch_data_for_loranode,
}
use edgebox.Uplink.{
  Config, Stack, field4, eb_ws_parse_weather_data, eb_ws_parse_non_weather_data, overwrite,
  ws_receive_msg, test_devaddr, test_data, hex_size,
}

-- The counter in the payloads moved on.
abbrev pub counted : Reporter → Reporter
counted r = record r { msgid_in_payload = r.msgid_in_payload + 1 }

-- Nothing was published, or one message.
abbrev pub PublishesOne : Reporter → Reporter → Type 0
PublishesOne r t =
    (t ≡ r) ⊎ ((t ≡ counted r) ⊎ ((payload : Text) × (t ≡ eb_publish payload (counted r))))

pub ok_injective : {r t : Reporter} → ok r ≡ ok t → r ≡ t
ok_injective e = cc

-- A run that ends with `t` publishes what it is known to publish.
ends_with : (r : Reporter) {s t : Reporter} → ok s ≡ ok t → PublishesOne r s → PublishesOne r t
ends_with r e p = subst (PublishesOne r) (ok_injective e) p

published : (r : Reporter) (payload : Text) → PublishesOne r (eb_publish payload (counted r))
published r payload = inr (inr (payload, refl))

wind_dir-PublishesOne :
    (rawvalue : ℕ) (r t : Reporter) → eb_report_wind_dir rawvalue r ≡ ok t → PublishesOne r t
unfolding eb_report_wind_dir
wind_dir-PublishesOne rawvalue r t e =
    let (dir, _, e₁) = bind-ok (deref (get_elem? dirs rawvalue)) _ e in
    ends_with r e₁ (published r _)

weather-PublishesOne :
    (config : Config) (env : Stack) (ascii : Text) (r t : Reporter)
    → eb_ws_parse_weather_data config env ascii r ≡ ok t
    → PublishesOne r t
unfolding eb_ws_parse_weather_data eb_report_temp_hum eb_report_wind_dir eb_report_wind_speed
weather-PublishesOne config env ascii r t e =
    let addr = strtol16 (take 2 ascii) in
    let (_, _, e₁) = bind-ok (defined (leb 1 (length ascii))) _ e in
    elim (Bool-cases (eq_int addr config.temp_humi_485_addr)) [
      | inl hum_sensor ↦
          let (hum, _, e₂) = bind-ok (field4 6 ascii) _ (rw hum_sensor at e₁) in
          let (temp, _, e₃) = bind-ok (field4 10 ascii) _ e₂ in ends_with r e₃ (published r _)
      | inr no_hum ↦ elim (Bool-cases (eq_int addr config.wind_dir_485_addr)) [
        | inl dir_sensor ↦
            let (dir, _, e₂) = bind-ok (field4 6 ascii) _ (rw (no_hum, dir_sensor) at e₁) in
            let (_, _, e₃) = bind-ok (defined env.dir_slack) _ e₂ in wind_dir-PublishesOne _ r t e₃
        | inr no_dir ↦ elim (Bool-cases (eq_int addr config.wind_speed_485_addr)) [
          | inl speed_sensor ↦
              let (speed, _, e₂) =
                bind-ok (field4 6 ascii) _ (rw (no_hum, no_dir, speed_sensor) at e₁) in
              ends_with r e₂ (published r _)
          | inr no_speed ↦ ends_with r (rw (no_hum, no_dir, no_speed) at e₁) (inl refl)
        ]
      ]
    ]

module _ (J : CJson) where
  open J use {Item, create_object, create_string, parse, get_object_item, valuestring}

  report-PublishesOne :
      (found node_found : ℕ → Bool) (lorasn : Text) (plc : ℤ) (plcs : List PlcNode) (start_addr : ℕ)
      (hexdata : ℕ → ℕ) (rounds reg_size : ℕ) (r t : Reporter)
      → eb_report_switch_data_for_loranode J found node_found lorasn plc plcs start_addr hexdata
          rounds reg_size r
        ≡ ok t
      → PublishesOne r t
  unfolding eb_report_switch_data_for_loranode
  report-PublishesOne found node_found lorasn plc plcs start hexdata rounds size r t e =
      elim (Bool-cases (found 0)) [
        | inr no_root ↦ ends_with r (rw no_root at e) (inl refl)
        | inl root ↦ elim (Bool-cases (found 1 && found 3 && found 5 && found 7)) [
          | inr failed ↦ ends_with r (rw (root, failed) at e) (inr (inl refl))
          | inl made ↦ elim (Option-cases (get_plc_node plc plcs)) [
            | inl unknown ↦ ends_with r (rw (root, made, unknown) at e) (inr (inl refl))
            | inr (p, known) ↦
                let (params, _, e₁) =
                  bind-ok
                    (add_switches J node_found p start hexdata size rounds 0 (
                      attach J (found 8) create_object (codes "loraNodeSerialNo")
                        (create_string lorasn)))
                    _ (rw (root, made, known) at e) in
                elim (Option-cases params) [
                  | inl failed ↦ ends_with r (rw failed at e₁) (inr (inl refl))
                  | inr (items, all) ↦
                      let (_, _, e₂) = bind-ok (defined (found 9)) _ (rw all at e₁) in
                      ends_with r e₂ (published r _)
                ]
          ]
        ]
      ]

  module _ (env : Stack) (plcs : List PlcNode) (config : Config) (room : Item → ℕ) where
    parsed-PublishesOne :
        (weather_lorasn lorasn text : Text) (r t : Reporter)
        → (if text_case_eq weather_lorasn lorasn
            then eb_ws_parse_weather_data config env text r
            else eb_ws_parse_non_weather_data J env plcs lorasn text r)
          ≡ ok t
        → PublishesOne r t
    unfolding eb_ws_parse_non_weather_data
    parsed-PublishesOne weather lorasn text r t e =
        elim (Bool-cases (text_case_eq weather lorasn)) [
          | inl station ↦ weather-PublishesOne config env text r t (rw station at e)
          | inr node ↦
              let (_, _, e₁) =
                bind-ok (defined (leb (length (ascii2hex text)) hex_size)) _ (rw node at e) in
              report-PublishesOne env.found env.node_found lorasn _ plcs _ _ _ _ r t e₁
        ]

    pub ws_receive_msg-PublishesOne :
        (json_text : Text) (r t : Reporter)
        → ws_receive_msg J env plcs config room json_text r ≡ ok t
        → PublishesOne r t
    unfolding ws_receive_msg
    ws_receive_msg-PublishesOne json_text r t e = elim (Option-cases (parse json_text)) [
      | inl bad ↦ ends_with r (rw (bad, ws_receive_msg) at e) (inl refl)
      | inr (root, parsed) ↦ elim (Option-cases (get_object_item root (codes "devaddr"))) [
        | inl missing ↦ ends_with r (rw (parsed, ws_receive_msg, missing) at e) (inl refl)
        | inr (devaddr, has_devaddr) ↦ elim (Option-cases (get_object_item root (codes "data"))) [
          | inl missing ↦
              ends_with r (rw (parsed, ws_receive_msg, has_devaddr, missing) at e) (inl refl)
          | inr (payload, has_data) ↦
              let (lorasn, _, e₁) =
                bind-ok (overwrite J env plcs room devaddr test_devaddr) _
                  (rw (parsed, ws_receive_msg, has_devaddr, has_data) at e) in
              let (text, _, e₂) = bind-ok (overwrite J env plcs room payload test_data) _ e₁ in
              let (weather, _, e₃) = bind-ok (deref config.weather_lorasn) _ e₂ in
              parsed-PublishesOne weather lorasn text r t e₃
        ]
      ]
    ]
