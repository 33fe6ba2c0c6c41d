-- ===== src/Downlink/Blocks.antt =====
-- src/mqtt.c, src/statusquery.c: the blocks of memory that the handling of a message takes and gives
-- back, but for those of the queues. The value that a text is parsed to is counted as one block, which
-- `cJSON_Delete` gives back whole; each value that the program makes is one with its key.
pub mod Balance
pub mod Handled
pub mod Leaks
pub mod Examples
use edgebox.Prelude.{
  ℕ, zero, suc, ◌+◌, ◌≡◌, Bool, true, false, ◌&&◌, Option, none, some, List, [], ◌∷◌, ◌++◌, length,
  replicate, if◌then◌else◌,
}
use edgebox.Prelude.Text.{Text, codes, text_eq}
use edgebox.Prelude.Run.{Run, ok, ◌>>=◌}
use edgebox.Json.{CJson}
use edgebox.Switches.{SwitchNode, get_switch_node}
use edgebox.Downlink.{Surroundings, next_round, Gathered, serial_key, gather_all}

-- The value that a text is parsed to, the copy of a switch, a value of a document for the LoRaWAN server,
-- and what `cJSON_Print` makes of a document.
pub data Block : Type 0 where
  tree node document text : Block

pub data Event : Type 0 where
  allocates frees : Block → Event

-- The values behind the root: each is attached if memory is found for its key, which comes behind it.
-- `cJSON_Delete(root)` gives back the root and what is attached. `i` counts the allocations.
unfoldable pub field_events : (ℕ → Bool) → ℕ → ℕ → ℕ → List Event
field_events found i zero attached = allocates text ∷ replicate attached (frees document)
field_events found i (suc left) attached =
    let rest = field_events found (i + 2) left (if found (i + 1) then attached + 1 else attached) in
    if found i then allocates document ∷ rest else replicate attached (frees document)

-- `construct_json_text2lora`
unfoldable pub construct_events : Surroundings → List Event
unfolding field_events
construct_events env = if env.found 0 then allocates document ∷ field_events env.found 1 4 1 else []

-- `run_command_on_lora_node`
unfoldable pub run_command_events : Surroundings → List SwitchNode → List Event
run_command_events env [] = []
run_command_events env (p ∷ ps) = construct_events env ++ run_command_events (next_round env) ps

module _ (J : CJson) (switches : List SwitchNode) where
  open J use {Item, parse, get_object_item, children, string}

  -- One parameter.
  unfoldable pub gather_events : Item → List Event
  gather_events element = elim (string element) [
    | none ↦ []
    | some key ↦
        if text_eq key serial_key
        then []
        else elim (get_switch_node key switches) [ none ↦ [] | some p ↦ allocates node ∷ [] ]
  ]

  unfoldable pub gather_all_events : List Item → List Event
  gather_all_events [] = []
  gather_all_events (element ∷ elements) = gather_events element ++ gather_all_events elements

  -- `process_single_iot_hub_msg`. `cJSON_Delete(NULL)` and an empty list give nothing back.
  unfoldable pub process_events : (ℕ → Bool) → Surroundings → Option Text → Run (List Event)
  process_events found env none = ok []
  process_events found env (some json_text) = elim (parse json_text) [
    | none ↦ ok []
    | some root ↦ elim (get_object_item root (codes "params")) [
      | none ↦ ok (allocates tree ∷ frees tree ∷ [])
      | some params ↦ do
        g ←
            gather_all J switches found 0 (children params)
              (record { loranodesn = []; list_head = [] })
        ok (
            allocates tree
            ∷ (gather_all_events (children params)
                ++ (run_command_events env g.list_head
                    ++ (replicate (length g.list_head) (frees node) ++ frees tree ∷ []))))
    ]
  ]
