-- ===== src/Gateway/Priority.antt =====
-- src/mqtt.c: commands are written with priority, queries without.
use edgebox.Prelude.{
  ℕ, ◌≡◌, refl, Bool, true, false, Option, none, some, List, [], ◌∷◌, Option-cases, inl, inr,
}
use edgebox.Prelude.Text.{Text, codes}
use edgebox.Prelude.Run.{ok, bind-ok}
use edgebox.Prelude.CInt.{pos, ℤ}
use edgebox.Hex.{hex2ascii}
use edgebox.Modbus.{modbus_write, modbus_weather}
use edgebox.Json.{CJson}
use edgebox.Switches.{SwitchNode, Switches}
use edgebox.Uplink.{Config}
use edgebox.Downlink.{
  Send, Surroundings, next_round, construct_json_text2lora, gather_all, run_command_on_lora_node,
  process_single_iot_hub_msg, send_weather_info_request,
}
use edgebox.Gateway.{handling}

-- All texts go in front of the queue.
abbrev pub AllPriority : List Send → Type 0
AllPriority [] = Unit {0}
AllPriority (s ∷ ss) = (s.priority ≡ true) × AllPriority ss

module _ (J : CJson) where
  run_command-AllPriority :
      (env : Surroundings) (loranodesn : Text) (ps : List SwitchNode) (sends : List Send)
      → run_command_on_lora_node J env loranodesn ps ≡ ok sends
      → AllPriority sends
  unfolding run_command_on_lora_node
  run_command-AllPriority env loranodesn [] sends e =
      let none_left : sends ≡ [] = cc in rw none_left tt
  run_command-AllPriority env loranodesn (p ∷ ps) sends e =
      let (text, _, e₁) =
        bind-ok
          (construct_json_text2lora J env (hex2ascii (modbus_write p.plc p.plc_channel p.v)) (pos 2)
            loranodesn (env.junk 0))
          _ e in
      let (rest, e₂, e₃) =
        bind-ok (run_command_on_lora_node J (next_round env) loranodesn ps) _ e₁ in
      let all = run_command-AllPriority (next_round env) loranodesn ps rest e₂ in
      let same : sends ≡ record { text = text; priority = true } ∷ rest = cc in rw same (refl, all)

  pub query-priority :
      (env : Surroundings) (lorasn : Option Text) (addr : ℤ) (send : Send)
      → send_weather_info_request J env lorasn addr ≡ ok (send ∷ [])
      → send.priority ≡ false
  unfolding send_weather_info_request
  query-priority env none addr send e = cc
  query-priority env (some lorasn) addr send e =
      let (text, _, e₁) =
        bind-ok
          (construct_json_text2lora J env (hex2ascii (modbus_weather addr)) (pos 2) lorasn
            (env.junk 0))
          _ e in
      let same : send ≡ record { text = text; priority = false } = cc in rw same

module _ (J : CJson) (switches : List SwitchNode) where
  open J use {Item, parse, get_object_item, children}

  process-AllPriority :
      (found : ℕ → Bool) (env : Surroundings) (json_text : Text) (sends : List Send)
      → process_single_iot_hub_msg J switches found env (some json_text) ≡ ok sends
      → AllPriority sends
  unfolding process_single_iot_hub_msg
  process-AllPriority found env json_text sends e = elim (Option-cases (parse json_text)) [
    | inl bad ↦ rw (none_sent (rw (bad, process_single_iot_hub_msg) at e)) tt
    | inr (root, parsed) ↦ elim (Option-cases (get_object_item root (codes "params"))) [
      | inl missing ↦ rw (none_sent (rw (parsed, process_single_iot_hub_msg, missing) at e)) tt
      | inr (params, has_params) ↦
          let (g, _, e₁) =
            bind-ok
              (gather_all J switches found 0 (children params)
                (record { loranodesn = []; list_head = [] }))
              _ (rw (parsed, process_single_iot_hub_msg, has_params) at e) in
          run_command-AllPriority J env g.loranodesn g.list_head sends e₁
    ]
  ]
    where
      none_sent : ok [] ≡ ok sends → sends ≡ []
      none_sent h = cc

module _ (J : CJson) (switches : Switches) (config : Config) (lws_pre : ℕ) where
  pub handling-AllPriority :
      (found : ℕ → Bool) (env : Surroundings) (out : Option Text) (sends : List Send)
      → handling J switches config lws_pre found env out ≡ ok sends
      → AllPriority sends
  unfolding handling
  handling-AllPriority found env none sends e = let none_left : sends ≡ [] = cc in rw none_left tt
  handling-AllPriority found env (some msg) sends e =
      process-AllPriority J switches.switch_list found env _ sends e
