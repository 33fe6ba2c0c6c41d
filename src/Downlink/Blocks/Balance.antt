-- ===== src/Downlink/Blocks/Balance.antt =====
-- src/mqtt.c, src/statusquery.c: all blocks of a message are given back but for the printed texts.
use edgebox.Prelude.{
  ℕ, zero, suc, ◌+◌, ◌≤◌, ◌≡◌, refl, Bool, true, false, List, [], ◌∷◌, ◌++◌, length, replicate,
  if◌then◌else◌, Bool-cases, inl, inr, arith,
}
use edgebox.Switches.{SwitchNode}
use edgebox.Downlink.{Surroundings, next_round}
use edgebox.Downlink.Documents.{Found}
use edgebox.Downlink.Blocks.{
  Block, tree, node, document, text, Event, allocates, frees, field_events, construct_events,
  run_command_events,
}

abbrev is_block : Block → Block → Bool
is_block tree tree = true
is_block node node = true
is_block document document = true
is_block text text = true
is_block _ _ = false

abbrev pub allocated : Block → List Event → ℕ
allocated b [] = 0
allocated b (allocates c ∷ es) = (if is_block b c then 1 else 0) + allocated b es
allocated b (frees c ∷ es) = allocated b es

abbrev pub freed : Block → List Event → ℕ
freed b [] = 0
freed b (allocates c ∷ es) = freed b es
freed b (frees c ∷ es) = (if is_block b c then 1 else 0) + freed b es

pub allocated-append :
    (b : Block) (xs ys : List Event) → allocated b (xs ++ ys) ≡ allocated b xs + allocated b ys
allocated-append b [] ys = omega arith
allocated-append b (allocates c ∷ xs) ys = omega (arith, allocated-append b xs ys)
allocated-append b (frees c ∷ xs) ys = allocated-append b xs ys

pub freed-append : (b : Block) (xs ys : List Event) → freed b (xs ++ ys) ≡ freed b xs + freed b ys
freed-append b [] ys = omega arith
freed-append b (allocates c ∷ xs) ys = freed-append b xs ys
freed-append b (frees c ∷ xs) ys = omega (arith, freed-append b xs ys)

-- The same block is given back again and again.
pub allocated-replicate : (b c : Block) (n : ℕ) → allocated b (replicate n (frees c)) ≡ 0
allocated-replicate b c zero = refl
allocated-replicate b c (suc n) = allocated-replicate b c n

pub freed-replicate :
    (c : Block) (n : ℕ) → freed c (frees c ∷ []) ≡ 1 → freed c (replicate n (frees c)) ≡ n
freed-replicate c zero e = refl
freed-replicate c (suc n) e = omega (arith, freed-replicate c n e, e)

pub freed-others :
    (b c : Block) (n : ℕ) → freed b (frees c ∷ []) ≡ 0 → freed b (replicate n (frees c)) ≡ 0
freed-others b c zero e = refl
freed-others b c (suc n) e = omega (arith, freed-others b c n e, e)

-- The values of a document whose keys find no memory: nothing leads to them any more.
abbrev pub unattached : (ℕ → Bool) → ℕ → ℕ → ℕ
unattached found i zero = 0
unattached found i (suc left) =
    let rest = unattached found (i + 2) left in
    if found i then (if found (i + 1) then rest else 1 + rest) else 0

-- Those of the documents of `n` commands.
abbrev pub lost_values : Surroundings → ℕ → ℕ
lost_values env zero = 0
lost_values env (suc n) =
    (if env.found 0 then unattached env.found 1 4 else 0) + lost_values (next_round env) n

-- What the commands take and give back: no value that was parsed and no copy of a switch, all values of
-- documents but `lost`, no text, and they take one text at most for each command.
pub record IsCommands (es : List Event) (n lost : ℕ) : Type 0 where
  pub trees : allocated tree es ≡ 0
  pub trees_freed : freed tree es ≡ 0
  pub nodes : allocated node es ≡ 0
  pub nodes_freed : freed node es ≡ 0
  pub documents : allocated document es ≡ freed document es + lost
  pub texts_freed : freed text es ≡ 0
  pub texts : allocated text es ≤ n

module _ (k : ℕ) where
  -- The deletion of a document with `k` values.
  record IsDeleted : Type 0 where
    taken : (b : Block) → allocated b (replicate k (frees document)) ≡ 0
    trees : freed tree (replicate k (frees document)) ≡ 0
    nodes : freed node (replicate k (frees document)) ≡ 0
    documents : freed document (replicate k (frees document)) ≡ k
    texts : freed text (replicate k (frees document)) ≡ 0

  all_deleted : IsDeleted
  all_deleted = record {
    taken = λ b. allocated-replicate b document k;
    trees = freed-others tree document k refl;
    nodes = freed-others node document k refl;
    documents = freed-replicate document k refl;
    texts = freed-others text document k refl;
  }

-- A document with `k` values attached goes on: as for commands, but for those `k`.
record IsFields (es : List Event) (k lost : ℕ) : Type 0 where
  trees : allocated tree es ≡ 0
  trees_freed : freed tree es ≡ 0
  nodes : allocated node es ≡ 0
  nodes_freed : freed node es ≡ 0
  documents : allocated document es + k ≡ freed document es + lost
  texts_freed : freed text es ≡ 0
  texts : allocated text es ≤ 1

printed-IsFields : (k : ℕ) → IsFields (allocates text ∷ replicate k (frees document)) k 0
printed-IsFields k =
    let d = all_deleted k in
    record {
      trees = omega (arith, d.taken tree);
      trees_freed = d.trees;
      nodes = omega (arith, d.taken node);
      nodes_freed = d.nodes;
      documents = omega (arith, d.taken document, d.documents);
      texts_freed = d.texts;
      texts = omega (arith, d.taken text);
    }

stopped-IsFields : (k : ℕ) → IsFields (replicate k (frees document)) k 0
stopped-IsFields k =
    let d = all_deleted k in
    record {
      trees = d.taken tree;
      trees_freed = d.trees;
      nodes = d.taken node;
      nodes_freed = d.nodes;
      documents = omega (arith, d.taken document, d.documents);
      texts_freed = d.texts;
      texts = omega (arith, d.taken text);
    }

-- One more value, attached or not.
made-IsFields :
    (es : List Event) (k k' lost lost' : ℕ)
    → IsFields es k' lost
    → k' + lost' ≡ k + 1 + lost
    → IsFields (allocates document ∷ es) k lost'
made-IsFields es k k' lost lost' v e = record {
  trees = omega (arith, v.trees);
  trees_freed = omega (arith, v.trees_freed);
  nodes = omega (arith, v.nodes);
  nodes_freed = omega (arith, v.nodes_freed);
  documents = omega (arith, v.documents, e);
  texts_freed = omega (arith, v.texts_freed);
  texts = omega (arith, v.texts);
}

field-IsFields :
    (found : ℕ → Bool) (i left k : ℕ)
    → IsFields (field_events found i left k) k (unattached found i left)
unfolding field_events
field-IsFields found i zero k = printed-IsFields k
field-IsFields found i (suc left) k = elim (Bool-cases (found i)) [
  | inr missing ↦ rw missing (stopped-IsFields k)
  | inl made ↦ elim (Bool-cases (found (i + 1))) [
    | inl key ↦
        rw (made, key)
          (made-IsFields (field_events found (i + 2) left (k + 1)) k (k + 1)
            (unattached found (i + 2) left) (unattached found (i + 2) left)
            (field-IsFields found (i + 2) left (k + 1)) refl)
    | inr no_key ↦
        rw (made, no_key)
          (made-IsFields (field_events found (i + 2) left k) k k (unattached found (i + 2) left)
            (1 + unattached found (i + 2) left) (field-IsFields found (i + 2) left k) (omega arith))
  ]
]

construct-IsCommands :
    (env : Surroundings)
    → IsCommands (construct_events env) 1 (if env.found 0 then unattached env.found 1 4 else 0)
unfolding construct_events
construct-IsCommands env = elim (Bool-cases (env.found 0)) [
  | inr no_root ↦ rw no_root (omega arith)
  | inl root ↦
      let v = field-IsFields env.found 1 4 1 in
      rw root (record {
        trees = omega (arith, v.trees);
        trees_freed = omega (arith, v.trees_freed);
        nodes = omega (arith, v.nodes);
        nodes_freed = omega (arith, v.nodes_freed);
        documents = omega (arith, v.documents);
        texts_freed = omega (arith, v.texts_freed);
        texts = omega (arith, v.texts);
      })
]

append-IsCommands :
    (xs ys : List Event) (m n k l : ℕ)
    → IsCommands xs m k
    → IsCommands ys n l
    → IsCommands (xs ++ ys) (m + n) (k + l)
append-IsCommands xs ys m n k l v w = record {
  trees = omega (arith, allocated-append tree xs ys, v.trees, w.trees);
  trees_freed = omega (arith, freed-append tree xs ys, v.trees_freed, w.trees_freed);
  nodes = omega (arith, allocated-append node xs ys, v.nodes, w.nodes);
  nodes_freed = omega (arith, freed-append node xs ys, v.nodes_freed, w.nodes_freed);
  documents = omega (
    arith,
    allocated-append document xs ys,
    freed-append document xs ys,
    v.documents,
    w.documents,
  );
  texts_freed = omega (arith, freed-append text xs ys, v.texts_freed, w.texts_freed);
  texts = omega (arith, allocated-append text xs ys, v.texts, w.texts);
}

pub run_command-IsCommands :
    (env : Surroundings) (ps : List SwitchNode)
    → IsCommands (run_command_events env ps) (length ps) (lost_values env (length ps))
unfolding run_command_events
run_command-IsCommands env [] = omega arith
run_command-IsCommands env (p ∷ ps) =
    let v =
      append-IsCommands (construct_events env) (run_command_events (next_round env) ps) 1
        (length ps) (if env.found 0 then unattached env.found 1 4 else 0)
        (lost_values (next_round env) (length ps)) (construct-IsCommands env)
        (run_command-IsCommands (next_round env) ps) in
    record {
      trees = v.trees;
      trees_freed = v.trees_freed;
      nodes = v.nodes;
      nodes_freed = v.nodes_freed;
      documents = v.documents;
      texts_freed = v.texts_freed;
      texts = omega (arith, v.texts);
    }

-- With memory each document leaves one text behind.
field-texts :
    (found : ℕ → Bool) (i left k : ℕ)
    → Found found
    → allocated text (field_events found i left k) ≡ 1
unfolding field_events
field-texts found i zero k all = omega (arith, allocated-replicate text document k)
field-texts found i (suc left) k all =
    rw (all i, all (i + 1)) (omega (arith, field-texts found (i + 2) left (k + 1) all))

pub run_command-texts :
    (env : Surroundings) (ps : List SwitchNode)
    → Found env.found
    → allocated text (run_command_events env ps) ≡ length ps
unfolding run_command_events construct_events
run_command-texts env [] found = refl
run_command-texts env (p ∷ ps) found =
    let rest : allocated text (run_command_events (next_round env) ps) ≡ length ps =
      run_command-texts (next_round env) ps (λ i. found (10 + i)) in
    let fields = field-texts env.found 1 4 1 found in
    rw (found 0) (
      omega (
        arith,
        rest,
        fields,
        allocated-append text (field_events env.found 1 4 1)
            (run_command_events (next_round env) ps),
      ))
