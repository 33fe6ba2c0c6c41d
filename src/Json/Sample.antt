-- ===== src/Json/Sample.antt =====
-- A small library of JSON values with the calls that the program makes of cJSON, to run the code on
-- concrete texts.
use edgebox.Prelude.{Bool, true, false, Option, none, some, List, [], ◌∷◌, ◌++◌, if◌then◌else◌}
use edgebox.Prelude.Text.{Text, codes, text_eq}
use edgebox.Prelude.CInt.{ℤ, pos, negsuc}
use edgebox.Json.{Number, number, tenths, CJson}

mutual
  -- An element under its key, if it has one: a text, a number in tenths, or a list of elements.
  pub data Element : Type 0 where
    text : Option Text → Text → Element
    amount : Option Text → ℤ → ℤ → Element
    object : Option Text → Elements → Element

  pub data Elements : Type 0 where
    nil : Elements
    cons : Element → Elements → Elements

abbrev key_of : Element → Option Text
key_of (text k v) = k
key_of (amount k n m) = k
key_of (object k xs) = k

abbrev rekeyed : Text → Element → Element
rekeyed key (text k v) = text (some key) v
rekeyed key (amount k n m) = amount (some key) n m
rekeyed key (object k xs) = object (some key) xs

abbrev elements_of : Elements → List Element
elements_of nil = []
elements_of (cons x xs) = x ∷ elements_of xs

abbrev below : Element → Elements
below (object k xs) = xs
below _ = nil

abbrev has_key : Text → Option Text → Bool
has_key key none = false
has_key key (some k) = text_eq k key

abbrev find_key : Text → Elements → Option Element
find_key key nil = none
find_key key (cons x xs) = if has_key key (key_of x) then some x else find_key key xs

abbrev append_last : Elements → Element → Elements
append_last nil y = cons y nil
append_last (cons x xs) y = cons x (append_last xs y)

abbrev with_element : Element → Text → Element → Element
with_element (object k xs) key y = object k (append_last xs (rekeyed key y))
with_element x key y = x

abbrev quoted_key : Option Text → Text
quoted_key none = []
quoted_key (some k) = k ++ codes ":"

abbrev digit_of : ℤ → Text
digit_of (pos n) = n ∷ []
digit_of (negsuc n) = codes "-" ++ n ∷ []

-- The texts one behind the other; a number is one character.
abbrev printed : Elements → Text
printed nil = []
printed (cons (text k v) xs) = quoted_key k ++ (v ++ (codes "," ++ printed xs))
printed (cons (amount k n m) xs) = quoted_key k ++ (digit_of n ++ (codes "," ++ printed xs))
printed (cons (object k ys) xs) = quoted_key k ++ (codes "," ++ printed xs)

abbrev amount_of : Number → Element
amount_of (number n) = amount none n n
amount_of (tenths n) = amount none n n

abbrev text_value : Element → Option Text
text_value (text k v) = some v
text_value _ = none

abbrev int_value : Element → ℤ
int_value (amount k n m) = n
int_value _ = pos 0

abbrev tenfold_value : Element → ℤ
tenfold_value (amount k n m) = m
tenfold_value _ = pos 0

abbrev is_amount : Element → Bool
is_amount (amount k n m) = true
is_amount _ = false

-- The library that reads one text, as the given element.
abbrev pub reading : Text → Element → CJson
reading source root = record {
  Item = Element;
  parse = λ t. if text_eq t source then some root else none;
  get_object_item = λ x key. find_key key (below x);
  children = λ x. elements_of (below x);
  string = key_of;
  valuestring = text_value;
  valueint = int_value;
  valuedouble_tenfold = tenfold_value;
  is_number = is_amount;
  create_object = object none nil;
  create_string = text none;
  create_number = amount_of;
  add_item = with_element;
  print = λ x. printed (below x);
}
