-- ===== src/Json.antt =====
-- The part of the cJSON library (src/cJSON.c, include/cJSON.h) that the program calls. The library is
-- not part of the program, so the calls are the fields of a parameter. A call that allocates is given
-- apart from the question whether it finds memory.
pub mod Sample
use edgebox.Prelude.{Bool, true, false, Option, List}
use edgebox.Prelude.Text.{Text}
use edgebox.Prelude.CInt.{ℤ}

-- `number` is a double that is an integer, `tenths` one that was divided by ten.
pub data Number : Type 0 where
  number : ℤ → Number
  tenths : ℤ → Number

pub record CJson : Type 1 where
  -- A node, as a value: the nodes below it included.
  pub Item : Type 0
  -- `cJSON_Parse`; `none` is NULL.
  pub parse : Text → Option Item
  -- `cJSON_GetObjectItemCaseSensitive`
  pub get_object_item : Item → Text → Option Item
  -- `cJSON_ArrayForEach`: the nodes of the list that starts at `child`.
  pub children : Item → List Item
  -- The fields of `struct cJSON` that the program reads.
  pub string : Item → Option Text
  pub valuestring : Item → Option Text
  pub valueint : Item → ℤ
  -- `(int)(valuedouble * 10)`
  pub valuedouble_tenfold : Item → ℤ
  -- `type == cJSON_Number`
  pub is_number : Item → Bool
  -- `cJSON_CreateObject` and the others, where memory is found.
  pub create_object : Item
  pub create_string : Text → Item
  pub create_number : Number → Item
  -- `cJSON_AddItemToObject`, where memory is found for the copy of the key.
  pub add_item : Item → Text → Item → Item
  -- `cJSON_Print`, where memory is found.
  pub print : Item → Text

module _ (J : CJson) where
  open J use {Item, add_item}

  -- `cJSON_AddItemToObject`, which copies the key: without memory for that the object stays as it is.
  abbrev pub attach : Bool → Item → Text → Item → Item
  attach true object key item = add_item object key item
  attach false object key item = object
