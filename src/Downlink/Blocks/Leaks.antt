-- ===== src/Downlink/Blocks/Leaks.antt =====
-- src/mqtt.c, src/statusquery.c: what a message from the hub leaves in memory.
use edgebox.Prelude.{
  ℕ, ◌≡◌, refl, Bool, Option, none, some, List, [], ◌∷◌, length, Option-cases, inl, inr, arith,
  subst,
}
use edgebox.Prelude.Text.{Text, codes}
use edgebox.Prelude.Run.{ok, bind-ok}
use edgebox.Json.{CJson}
use edgebox.Switches.{SwitchNode}
use edgebox.Downlink.{
  Send, Surroundings, Gathered, gather_all, run_command_on_lora_node, process_single_iot_hub_msg,
}
use edgebox.Downlink.Documents.{Found}
use edgebox.Downlink.Blocks.{
  tree, text, Event, allocates, frees, run_command_events, gather_all_events, process_events,
}
use edgebox.Downlink.Blocks.Balance.{
  allocated, freed, lost_values, run_command-IsCommands, run_command-texts,
}
use edgebox.Downlink.Blocks.Handled.{
  gather_all-IsGathering, length-run_command, handled, allocated-handled, IsBalanced, IsGathering,
  handled-IsBalanced,
}

module _ (J : CJson) (switches : List SwitchNode) where
  open J use {Item, parse, get_object_item, children}

  Accounted : (ℕ → Bool) → Surroundings → Option Text → ℕ → Type 0
  Accounted found env out n =
      (es : List Event) × (process_events J switches found env out ≡ ok es)
      × IsBalanced es n (lost_values env n)
      × (Found env.found → allocated text es ≡ n)

  nothing_sent : (sends : List Send) → ok [] ≡ ok sends → length sends ≡ 0
  nothing_sent sends e = let same : sends ≡ [] = cc in rw same refl

  -- The same for what was gathered from the parameters.
  events_of : Surroundings → Item → Gathered → List Event
  events_of env params g =
      handled (gather_all_events J switches (children params)) (run_command_events env g.list_head)
        (length g.list_head)

  gathered-IsBalanced :
      (found : ℕ → Bool) (env : Surroundings) (params : Item) (g : Gathered) (sends : List Send)
      → gather_all J switches found 0 (children params) (record { loranodesn = []; list_head = [] })
        ≡ ok g
      → run_command_on_lora_node J env g.loranodesn g.list_head ≡ ok sends
      → IsBalanced (events_of env params g) (length sends) (lost_values env (length sends))
  unfolding events_of
  gathered-IsBalanced found env params g sends e₁ e₂ =
      let (n, v, grown) =
        gather_all-IsGathering J switches found 0 (children params)
          (record { loranodesn = []; list_head = [] }) g e₁ in
      let copies : n ≡ length g.list_head = omega (arith, grown) in
      rw (length-run_command J env g.loranodesn g.list_head sends e₂) (
        handled-IsBalanced (gather_all_events J switches (children params))
          (run_command_events env g.list_head) (length g.list_head) (length g.list_head)
          (lost_values env (length g.list_head))
          (subst (IsGathering (gather_all_events J switches (children params))) copies v)
          (run_command-IsCommands env g.list_head))

  gathered-texts :
      (found : ℕ → Bool) (env : Surroundings) (params : Item) (g : Gathered) (sends : List Send)
      → gather_all J switches found 0 (children params) (record { loranodesn = []; list_head = [] })
        ≡ ok g
      → run_command_on_lora_node J env g.loranodesn g.list_head ≡ ok sends
      → Found env.found
      → allocated text (events_of env params g) ≡ length sends
  unfolding events_of
  gathered-texts found env params g sends e₁ e₂ memory =
      let (n, v, grown) =
        gather_all-IsGathering J switches found 0 (children params)
          (record { loranodesn = []; list_head = [] }) g e₁ in
      omega (
        arith,
        allocated-handled text (gather_all_events J switches (children params))
            (run_command_events env g.list_head) (length g.list_head),
        v.texts,
        run_command-texts env g.list_head memory,
        length-run_command J env g.loranodesn g.list_head sends e₂,
      )

  params-events :
      (found : ℕ → Bool) (env : Surroundings) (json_text : Text) (root params : Item)
      → parse json_text ≡ some root
      → get_object_item root (codes "params") ≡ some params
      → (g : Gathered)
      → gather_all J switches found 0 (children params) (record { loranodesn = []; list_head = [] })
        ≡ ok g
      → process_events J switches found env (some json_text) ≡ ok (events_of env params g)
  unfolding process_events events_of
  params-events found env json_text root params parsed has_params g e₁ =
      rw (parsed, process_events, has_params, e₁) refl

  params-Accounted :
      (found : ℕ → Bool) (env : Surroundings) (json_text : Text) (root params : Item)
      → parse json_text ≡ some root
      → get_object_item root (codes "params") ≡ some params
      → (sends : List Send)
      → process_single_iot_hub_msg J switches found env (some json_text) ≡ ok sends
      → Accounted found env (some json_text) (length sends)
  unfolding Accounted process_single_iot_hub_msg
  params-Accounted found env json_text root params parsed has_params sends e =
      let (g, e₁, e₂) =
        bind-ok
          (gather_all J switches found 0 (children params)
            (record { loranodesn = []; list_head = [] }))
          _ (rw (parsed, process_single_iot_hub_msg, has_params) at e) in
      (
        events_of env params g,
        params-events found env json_text root params parsed has_params g e₁,
        gathered-IsBalanced found env params g sends e₁ e₂,
        gathered-texts found env params g sends e₁ e₂,
      )

  message-Accounted :
      (found : ℕ → Bool) (env : Surroundings) (out : Option Text) (sends : List Send)
      → process_single_iot_hub_msg J switches found env out ≡ ok sends
      → Accounted found env out (length sends)
  unfolding Accounted process_single_iot_hub_msg process_events
  message-Accounted found env none sends e =
      rw (nothing_sent sends e) ([], refl, omega arith, λ _. refl)
  message-Accounted found env (some json_text) sends e = elim (Option-cases (parse json_text)) [
    | inl bad ↦
        rw (nothing_sent sends (rw (bad, process_single_iot_hub_msg) at e))
          ([], rw (bad, process_events) refl, omega arith, λ _. refl)
    | inr (root, parsed) ↦ elim (Option-cases (get_object_item root (codes "params"))) [
      | inl missing ↦
          rw (nothing_sent sends (rw (parsed, process_single_iot_hub_msg, missing) at e)) (
            allocates tree ∷ frees tree ∷ [],
            rw (parsed, process_events, missing) refl,
            omega arith,
            λ _. refl,
          )
      | inr (params, has_params) ↦
          params-Accounted found env json_text root params parsed has_params sends e
    ]
  ]

  -- However a message from the hub is handled, whatever allocations fail and whatever it holds, if its
  -- handling runs to the end then the parsed value and every copy of a switch are given back, and the
  -- values made for the documents but for those without memory for their key, which are lost; no
  -- printed text is given back, and there is at most one for each frame that was sent.
  pub message_gives_back :
      (found : ℕ → Bool) (env : Surroundings) (out : Option Text) (sends : List Send)
      → process_single_iot_hub_msg J switches found env out ≡ ok sends
      → (es : List Event) × (process_events J switches found env out ≡ ok es)
        × IsBalanced es (length sends) (lost_values env (length sends))
  unfolding Accounted
  message_gives_back found env out sends e =
      let (es, run, balanced, _) = message-Accounted found env out sends e in (es, run, balanced)

  -- With memory for the documents, a message whose handling runs to the end leaves in memory exactly one
  -- printed text for each frame that was sent: the texts that are taken are as many as the frames, and
  -- none is given back.
  pub message_leaks :
      (found : ℕ → Bool) (env : Surroundings) (out : Option Text) (sends : List Send)
      → Found env.found
      → process_single_iot_hub_msg J switches found env out ≡ ok sends
      → (es : List Event) × (process_events J switches found env out ≡ ok es)
        × (allocated text es ≡ length sends)
        × (freed text es ≡ 0)
  unfolding Accounted
  message_leaks found env out sends memory e =
      let (es, run, balanced, texts) = message-Accounted found env out sends e in
      (es, run, texts memory, balanced.texts_freed)
