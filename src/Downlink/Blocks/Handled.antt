-- ===== src/Downlink/Blocks/Handled.antt =====
-- src/mqtt.c, src/parse_switch.c: the blocks of the parts of a message's handling, and of the whole.
use edgebox.Prelude.{
  ℕ, suc, ◌+◌, ◌≤◌, ◌≡◌, refl, ap, Bool, true, List, [], ◌∷◌, ◌++◌, length, replicate, Bool-cases,
  Option-cases, inl, inr, arith, ltb,
}
use edgebox.Prelude.CInt.{pos}
use edgebox.Prelude.Text.{Text, text_eq}
use edgebox.Prelude.Run.{ok, bind-ok, defined, deref}
use edgebox.Json.{CJson}
use edgebox.Hex.{hex2ascii}
use edgebox.Modbus.{modbus_write}
use edgebox.Switches.{SwitchNode, get_switch_node, add_switch_to_list}
use edgebox.Downlink.{
  Send, Surroundings, next_round, Gathered, serial_key, loranodesn_size, commanded, gather,
  gather_all, construct_json_text2lora, run_command_on_lora_node,
}
use edgebox.Downlink.Blocks.{
  Block, tree, node, document, text, Event, allocates, frees, gather_events, gather_all_events,
}
use edgebox.Downlink.Blocks.Balance.{
  allocated, freed, allocated-append, freed-append, allocated-replicate, freed-replicate,
  freed-others, IsCommands,
}

-- Copies of switches are taken, and nothing else.
pub record IsGathering (es : List Event) (n : ℕ) : Type 0 where
  pub nodes : allocated node es ≡ n
  pub trees : allocated tree es ≡ 0
  pub documents : allocated document es ≡ 0
  pub texts : allocated text es ≡ 0
  pub trees_freed : freed tree es ≡ 0
  pub nodes_freed : freed node es ≡ 0
  pub documents_freed : freed document es ≡ 0
  pub texts_freed : freed text es ≡ 0

append-IsGathering :
    (xs ys : List Event) (m n : ℕ)
    → IsGathering xs m
    → IsGathering ys n
    → IsGathering (xs ++ ys) (m + n)
append-IsGathering xs ys m n v w = record {
  nodes = omega (arith, allocated-append node xs ys, v.nodes, w.nodes);
  trees = omega (arith, allocated-append tree xs ys, v.trees, w.trees);
  documents = omega (arith, allocated-append document xs ys, v.documents, w.documents);
  texts = omega (arith, allocated-append text xs ys, v.texts, w.texts);
  trees_freed = omega (arith, freed-append tree xs ys, v.trees_freed, w.trees_freed);
  nodes_freed = omega (arith, freed-append node xs ys, v.nodes_freed, w.nodes_freed);
  documents_freed =
      omega (arith, freed-append document xs ys, v.documents_freed, w.documents_freed);
  texts_freed = omega (arith, freed-append text xs ys, v.texts_freed, w.texts_freed);
}

module _ (J : CJson) (switches : List SwitchNode) where
  open J use {Item, parse, get_object_item, children, string, valuestring}

  -- A parameter takes a copy exactly if the list grows by one.
  gather-IsGathering :
      (found : Bool) (element : Item) (g g' : Gathered)
      → gather J switches found element g ≡ ok g'
      → (n : ℕ) × IsGathering (gather_events J switches element) n
        × (length g'.list_head ≡ length g.list_head + n)
  unfolding gather gather_events add_switch_to_list
  gather-IsGathering found element g g' e = elim (Option-cases (string element)) [
    | inl unnamed ↦
        let same : g ≡ g' = cc (rw (unnamed, gather) at e) in
        (0, rw (unnamed, gather_events) (omega arith), rw (← same) (omega arith))
    | inr (key, named) ↦ elim (Bool-cases (text_eq key serial_key)) [
      | inl serial ↦
          let (t, _, e₁) =
            bind-ok (deref (valuestring element)) _ (rw (named, gather, serial) at e) in
          let (_, _, e₂) = bind-ok (defined (ltb (length t) loranodesn_size)) _ e₁ in
          let same : record g { loranodesn = t } ≡ g' = cc in
          (0, rw (named, gather_events, serial) (omega arith), rw (← same) (omega arith))
      | inr other ↦ elim (Option-cases (get_switch_node key switches)) [
        | inl unknown ↦
            let same : g ≡ g' = cc (rw (named, gather, other, unknown) at e) in
            (0, rw (named, gather_events, other, unknown) (omega arith), rw same (omega arith))
        | inr (p, known) ↦
            let (_, _, e₁) = bind-ok (defined found) _ (rw (named, gather, other, known) at e) in
            let same : record g { list_head = commanded J switches key element p ∷ g.list_head }
                ≡ g' =
              cc in
            (1, rw (named, gather_events, other, known) (omega arith), rw (← same) (omega arith))
      ]
    ]
  ]

  pub gather_all-IsGathering :
      (found : ℕ → Bool) (k : ℕ) (elements : List Item) (g g' : Gathered)
      → gather_all J switches found k elements g ≡ ok g'
      → (n : ℕ) × IsGathering (gather_all_events J switches elements) n
        × (length g'.list_head ≡ length g.list_head + n)
  unfolding gather_all gather_all_events
  gather_all-IsGathering found k [] g g' e =
      let same : g ≡ g' = cc in (0, omega arith, rw (← same) (omega arith))
  gather_all-IsGathering found k (element ∷ elements) g g' e =
      let (g₁, e₁, e₂) = bind-ok (gather J switches (found k) element g) _ e in
      let (m, v, grown) = gather-IsGathering (found k) element g g₁ e₁ in
      let (n, w, grown') = gather_all-IsGathering found (k + 1) elements g₁ g' e₂ in
      (
        m + n,
        append-IsGathering (gather_events J switches element)
            (gather_all_events J switches elements) m n v w,
        omega (arith, grown, grown'),
      )

-- One frame is sent for each switch.
pub length-run_command :
    (J : CJson) (env : Surroundings) (loranodesn : Text) (ps : List SwitchNode) (sends : List Send)
    → run_command_on_lora_node J env loranodesn ps ≡ ok sends
    → length sends ≡ length ps
unfolding run_command_on_lora_node
length-run_command J env loranodesn [] sends e =
    let none_left : sends ≡ [] = cc in rw none_left refl
length-run_command J env loranodesn (p ∷ ps) sends e =
    let (printed, _, e₁) =
      bind-ok
        (construct_json_text2lora J env (hex2ascii (modbus_write p.plc p.plc_channel p.v)) (pos 2)
          loranodesn (env.junk 0))
        _ e in
    let (rest, e₂, e₃) = bind-ok (run_command_on_lora_node J (next_round env) loranodesn ps) _ e₁ in
    let shorter = length-run_command J (next_round env) loranodesn ps rest e₂ in
    let same : sends ≡ record { text = printed; priority = true } ∷ rest = cc in
    rw same (ap suc shorter)

-- Parsed values and copies are given back, and the values of documents but for `lost` of them; the texts
-- are not, and there is one at most for each frame.
pub record IsBalanced (es : List Event) (n lost : ℕ) : Type 0 where
  pub trees : allocated tree es ≡ freed tree es
  pub nodes : allocated node es ≡ freed node es
  pub documents : allocated document es ≡ freed document es + lost
  pub texts_freed : freed text es ≡ 0
  pub texts : allocated text es ≤ n

-- What is left at the end of the handling of a message with parameters.
abbrev pub released : ℕ → List Event
released n = replicate n (frees node) ++ frees tree ∷ []

allocated-released : (b : Block) (n : ℕ) → allocated b (released n) ≡ 0
allocated-released b n = omega (
  arith,
  allocated-append b (replicate n (frees node)) (frees tree ∷ []),
  allocated-replicate b node n,
)

freed-released :
    (b : Block) (n : ℕ)
    → freed b (released n) ≡ freed b (replicate n (frees node)) + freed b (frees tree ∷ [])
freed-released b n = freed-append b (replicate n (frees node)) (frees tree ∷ [])

abbrev pub handled : List Event → List Event → ℕ → List Event
handled xs ys n = allocates tree ∷ (xs ++ (ys ++ released n))

pub allocated-handled :
    (b : Block) (xs ys : List Event) (n : ℕ)
    → allocated b (handled xs ys n)
      ≡ allocated b (allocates tree ∷ []) + (allocated b xs + allocated b ys)
allocated-handled b xs ys n = omega (
  arith,
  allocated-append b xs (ys ++ released n),
  allocated-append b ys (released n),
  allocated-released b n,
)

freed-handled :
    (b : Block) (xs ys : List Event) (n : ℕ)
    → freed b (handled xs ys n)
      ≡ freed b xs + freed b ys + freed b (replicate n (frees node)) + freed b (frees tree ∷ [])
freed-handled b xs ys n = omega (
  arith,
  freed-append b xs (ys ++ released n),
  freed-append b ys (released n),
  freed-released b n,
)

pub handled-IsBalanced :
    (xs ys : List Event) (n k lost : ℕ)
    → IsGathering xs n
    → IsCommands ys k lost
    → IsBalanced (handled xs ys n) k lost
handled-IsBalanced xs ys n k lost v w = record {
  trees = omega (
    arith,
    allocated-handled tree xs ys n,
    freed-handled tree xs ys n,
    freed-others tree node n refl,
    v.trees,
    v.trees_freed,
    w.trees,
    w.trees_freed,
  );
  nodes = omega (
    arith,
    allocated-handled node xs ys n,
    freed-handled node xs ys n,
    freed-replicate node n refl,
    v.nodes,
    v.nodes_freed,
    w.nodes,
    w.nodes_freed,
  );
  documents = omega (
    arith,
    allocated-handled document xs ys n,
    freed-handled document xs ys n,
    freed-others document node n refl,
    v.documents,
    v.documents_freed,
    w.documents,
  );
  texts_freed = omega (
    arith,
    freed-handled text xs ys n,
    freed-others text node n refl,
    v.texts_freed,
    w.texts_freed,
  );
  texts = omega (arith, allocated-handled text xs ys n, v.texts, w.texts);
}
