-- ===== src/Downlink/Commands.antt =====
-- src/mqtt.c: a message from the hub, from its text to the queue of the websocket.
use edgebox.Prelude.{
  ℕ, ◌+◌, ◌<◌, ◌≡◌, refl, ap, sym, ◌∙◌, Bool, true, false, none, some, List, [], ◌∷◌, ◌++◌, map,
  length, if◌then◌else◌, lt→ltb, inl, inr, Option-cases, Bool-cases,
}
use mathlib.Core.List.{reverse_aux}
use edgebox.Prelude.Text.{Text, codes, text_eq, text_eq→eq}
use edgebox.Prelude.Run.{ok}
use edgebox.Json.{CJson}
use edgebox.Switches.{SwitchNode, get_switch_node, add_switch_to_list}
use edgebox.WsQueue.Pushes.{enqueue}
use edgebox.Downlink.{
  Send, Surroundings, Gathered, serial_key, loranodesn_size, commanded, gather, gather_all,
  process_single_iot_hub_msg,
}
use edgebox.Downlink.Documents.{Found, command, AllShort, run_command_on_lora_node-ok}

-- The texts that wait after the calls of `eb_ws_write`, which start with the first of the list.
unfoldable pub after_sends : List Send → List Text → List Text
after_sends [] pending = pending
after_sends (s ∷ ss) pending = after_sends ss (enqueue s.priority s.text pending)

module _ (J : CJson) (switches : List SwitchNode) where
  open J use {Item, parse, get_object_item, children, string, valuestring}

  -- The switches that a message commands, in the order of the message.
  unfoldable pub targets : List Item → List SwitchNode
  targets [] = []
  targets (x ∷ xs) = elim (string x) [
    | none ↦ targets xs
    | some key ↦
        if text_eq key serial_key then targets xs else elim (get_switch_node key switches) [
          | none ↦ targets xs
          | some p ↦ commanded J switches key x p ∷ targets xs
        ]
  ]

  -- The text of the last parameter that names a node, or the text before.
  unfoldable pub serial_after : Text → List Item → Text
  serial_after old [] = old
  serial_after old (x ∷ xs) = elim (string x) [
    | none ↦ serial_after old xs
    | some key ↦ elim (text_eq key serial_key) [
      | false ↦ serial_after old xs
      | true ↦ elim (valuestring x) [ none ↦ serial_after old xs | some t ↦ serial_after t xs ]
    ]
  ]

  -- Every parameter that names a node is a text that fits the array.
  abbrev SerialFits : Item → Type 0
  SerialFits x =
      string x ≡ some serial_key
      → (t : Text) × (valuestring x ≡ some t) × (length t < loranodesn_size)

  abbrev pub AllSerialsFit : List Item → Type 0
  AllSerialsFit [] = Unit {0}
  AllSerialsFit (x ∷ xs) = SerialFits x × AllSerialsFit xs

  -- Where the loop stands after the parameters `xs`: each switch found went in front of the others.
  abbrev gathered : List Item → Gathered → Gathered
  gathered xs g = record {
    loranodesn = serial_after g.loranodesn xs;
    list_head = reverse_aux (targets xs) g.list_head;
  }

  GatherOk : Item → List Item → Gathered → Type 0
  GatherOk x xs g =
      (g' : Gathered) × (gather J switches true x g ≡ ok g')
      × (gathered (x ∷ xs) g ≡ gathered xs g')

  gather_serial :
      (x : Item) (xs : List Item) (g : Gathered) (key : Text)
      → string x ≡ some key
      → text_eq key serial_key ≡ true
      → SerialFits x
      → GatherOk x xs g
  unfolding GatherOk gather targets serial_after
  gather_serial x xs g key named is_serial fits =
      let (t, value, short) = fits (named ∙ ap some (text_eq→eq key serial_key is_serial)) in
      (
        record g { loranodesn = t },
        rw (named, gather, is_serial, value, lt→ltb _ _ short),
        rw (named, targets, serial_after, is_serial, value),
      )

  gather_other :
      (x : Item) (xs : List Item) (g : Gathered) (key : Text)
      → string x ≡ some key
      → text_eq key serial_key ≡ false
      → GatherOk x xs g
  unfolding GatherOk gather targets serial_after add_switch_to_list
  gather_other x xs g key named other = elim (Option-cases (get_switch_node key switches)) [
    | inl unknown ↦
        (g, rw (named, gather, other, unknown), rw (named, targets, serial_after, other, unknown))
    | inr (p, found) ↦ (
      record g { list_head = add_switch_to_list (commanded J switches key x p) g.list_head },
      rw (named, gather, other, found),
      rw (named, targets, serial_after, other, found, add_switch_to_list),
    )
  ]

  gather-ok : (x : Item) (xs : List Item) (g : Gathered) → SerialFits x → GatherOk x xs g
  unfolding GatherOk gather targets serial_after
  gather-ok x xs g fits = elim (Option-cases (string x)) [
    | inl unnamed ↦ (g, rw (unnamed, gather), rw (unnamed, targets, serial_after))
    | inr (key, named) ↦ elim (Bool-cases (text_eq key serial_key)) [
      | inl is_serial ↦ gather_serial x xs g key named is_serial fits
      | inr other ↦ gather_other x xs g key named other
    ]
  ]

  -- The loop gathers the node that the message names last and the switches, the last one in front.
  gather_all-ok :
      (n : ℕ) (found : ℕ → Bool) (xs : List Item) (g : Gathered)
      → Found found
      → AllSerialsFit xs
      → gather_all J switches found n xs g ≡ ok (gathered xs g)
  unfolding gather_all targets serial_after GatherOk
  gather_all-ok n found [] g all fits = refl
  gather_all-ok n found (x ∷ xs) g all fits =
      let (g', e, same) = gather-ok x xs g fits.0 in
      rw (all n, e) (gather_all-ok (n + 1) found xs g' all fits.1 ∙ ap ok (sym same))

  after_sends_commands :
      (lorasn : Text) (ps : List SwitchNode) (pending : List Text)
      → after_sends (map (command J lorasn) ps) pending
        ≡ reverse_aux (map (λ p. (command J lorasn p).text) ps) pending
  unfolding after_sends
  after_sends_commands lorasn [] pending = refl
  after_sends_commands lorasn (p ∷ ps) pending =
      after_sends_commands lorasn ps ((command J lorasn p).text ∷ pending)

  reversed_twice :
      (f : SwitchNode → Text) (ps acc : List SwitchNode) (pending : List Text)
      → reverse_aux (map f (reverse_aux ps acc)) pending
        ≡ reverse_aux (map f acc) (map f ps ++ pending)
  reversed_twice f [] acc pending = refl
  reversed_twice f (p ∷ ps) acc pending = reversed_twice f ps (p ∷ acc) pending

  AllShort-reverse_aux :
      (lorasn : Text) (ps acc : List SwitchNode)
      → AllShort J lorasn ps
      → AllShort J lorasn acc
      → AllShort J lorasn (reverse_aux ps acc)
  AllShort-reverse_aux lorasn [] acc h k = k
  AllShort-reverse_aux lorasn (p ∷ ps) acc h k =
      AllShort-reverse_aux lorasn ps (p ∷ acc) h.1 (h.0, k)

  -- With memory, a message that parses and has parameters, whose node names and command texts fit
  -- their arrays, puts one command for each known switch in front of all texts that wait, the commands
  -- in the order of the message, all for the node that the message names last.
  pub commands_in_order :
      (found : ℕ → Bool) (env : Surroundings) (json_text : Text) (root params : Item)
      (pending : List Text)
      → Found found
      → Found env.found
      → parse json_text ≡ some root
      → get_object_item root (codes "params") ≡ some params
      → AllSerialsFit (children params)
      → AllShort J (serial_after [] (children params)) (targets (children params))
      → (sends : List Send) × (process_single_iot_hub_msg J switches found env (some json_text)
          ≡ ok sends)
        × (after_sends sends pending
            ≡ map
                (λ p. (command J (serial_after [] (children params)) p).text)
                (targets (children params))
              ++ pending)
  unfolding process_single_iot_hub_msg
  commands_in_order found env json_text root params pending all all_env parsed has_params fits
        short =
      let xs = children params in
      let lorasn = serial_after [] xs in
      let ps : List SwitchNode = reverse_aux (targets xs) [] in
      (
        map (command J lorasn) ps,
        rw
            (
              parsed,
              process_single_iot_hub_msg,
              has_params,
              gather_all-ok 0 found xs (record { loranodesn = []; list_head = [] }) all fits,
            )
            (run_command_on_lora_node-ok J env lorasn ps all_env
              (AllShort-reverse_aux lorasn (targets xs) [] short tt)),
        after_sends_commands lorasn ps pending
            ∙ reversed_twice (λ p. (command J lorasn p).text) (targets xs) [] pending,
      )
