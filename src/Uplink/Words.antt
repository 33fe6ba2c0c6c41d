-- ===== src/Uplink/Words.antt =====
-- src/wsclient.c, src/mqtt.c: the reply of a PLC with registers of two bytes.
pub mod Faults
pub mod Examples
use edgebox.Prelude.{
  ℕ, zero, suc, ◌+◌, ◌-◌, ◌*◌, ◌/◌, ◌≤◌, ◌<◌, ◌≡◌, ◌≢◌, ◌⊎◌, inl, inr, refl, sym, ap, ◌∙◌, Bool,
  true, false, none, some, List, [], ◌∷◌, ◌++◌, map, length, get_elem?, get_or, leb, arith,
  Bool-cases, ltb, Option-cases, length-append,
}
use edgebox.Prelude.CInt.{ℤ, pos}
use edgebox.Prelude.Text.{Text, codes}
use edgebox.Prelude.Run.{Run, ok, fault}
use edgebox.Json.{CJson}
use edgebox.Crc.Reference.{AllBytes}
use edgebox.Hex.{hex2ascii}
use edgebox.Hex.RoundTrip.{ascii2hex-hex2ascii}
use edgebox.Switches.{PlcNode, get_plc_node, max_reg_addr}
use edgebox.Report.{
  Reporter, eb_publish, two_byte_value, register_value, switch_number, add_switches,
  eb_report_switch_data_for_loranode,
}
use edgebox.Report.Decimals.{two_byte_value_iff}
use edgebox.Uplink.{Stack, hex_array, hex_size, max_1byte_len_reg, eb_ws_parse_non_weather_data}
use edgebox.Uplink.Registers.{named, report_text, values_from, hex_array-values, report-ok}

-- The bytes of words with a low byte of zero, from their high bytes.
unfoldable pub even_words : List ℕ → List ℕ
even_words [] = []
even_words (h ∷ hs) = h ∷ 0 ∷ even_words hs

even_words-at :
    (hs rest : List ℕ) (j h : ℕ)
    → get_elem? hs j ≡ some h
    → (get_elem? (even_words hs ++ rest) (j * 2) ≡ some h)
      × (get_elem? (even_words hs ++ rest) (j * 2 + 1) ≡ some 0)
unfolding even_words
even_words-at [] rest j h e = cc
even_words-at (x ∷ hs) rest zero h e = (e, refl)
even_words-at (x ∷ hs) rest (suc j) h e =
    let low : suc j * 2 ≡ suc (suc (j * 2)) = omega arith in
    let high : suc j * 2 + 1 ≡ suc (suc (j * 2 + 1)) = omega arith in
    let (a, b) = even_words-at hs rest j h e in (rw low a, rw high b)

even_words-byte :
    (hs rest : List ℕ) (j : ℕ)
    → AllBytes (even_words hs ++ rest)
    → j < length hs
    → get_or hs j 0 < 256
unfolding even_words
even_words-byte [] rest j bytes lt = absurd (omega arith)
even_words-byte (h ∷ hs) rest zero bytes lt = bytes.0
even_words-byte (h ∷ hs) rest (suc j) bytes lt = even_words-byte hs rest j bytes.1.1 (omega arith)

length-even_words : (hs : List ℕ) → length (even_words hs) ≡ 2 * length hs
unfolding even_words
length-even_words [] = refl
length-even_words (h ∷ hs) = omega (arith, length-even_words hs)

get_elem?-get_or : (hs : List ℕ) (j : ℕ) → j < length hs → get_elem? hs j ≡ some (get_or hs j 0)
get_elem?-get_or [] j h = absurd (omega arith)
get_elem?-get_or (x ∷ hs) zero h = refl
get_elem?-get_or (x ∷ hs) (suc j) h = get_elem?-get_or hs j (omega arith)

values_from-list :
    (f : ℕ → ℤ) (hs : List ℕ) (value : ℕ → ℤ) (i : ℕ)
    → ((j : ℕ) → j < length hs → value (i + j) ≡ f (get_or hs j 0))
    → values_from value i (length hs) ≡ map f hs
unfolding values_from
values_from-list f [] value i reads = refl
values_from-list f (h ∷ hs) value i reads =
    let here : i + 0 ≡ i = omega arith in
    let first : value i ≡ f h = ap value (sym here) ∙ reads 0 (omega arith) in
    let moved : (j : ℕ) → i + 1 + j ≡ i + suc j = λ j. omega arith in
    rw (
      first,
      values_from-list f hs value (i + 1)
          (λ j lt. ap value (moved j) ∙ reads (suc j) (omega arith)),
    )

zero-plus : (j : ℕ) → 0 + j ≡ j
zero-plus j = omega arith

module _ (J : CJson) where
  open J use {Item, create_object, create_string, add_item}

  -- The number at a register, where the bytes behind the head of the reply are `vs`.
  word_at :
      (env : Stack) (a b c d e : ℕ) (vs : List ℕ) (j high low : ℕ)
      → high < 256
      → low < 256
      → get_elem? vs (j * 2) ≡ some high
      → get_elem? vs (j * 2 + 1) ≡ some low
      → register_value 2 (λ i. hex_array env (a ∷ b ∷ c ∷ d ∷ e ∷ vs) (5 + i)) j
        ≡ two_byte_value high low
  unfolding register_value
  word_at env a b c d e vs j high low h l at_high at_low =
      let first : 5 + j * 2 ≡ 5 + (0 + j * 2) = omega arith in
      let second : 5 + (j * 2 + 1) ≡ 5 + (0 + (j * 2 + 1)) = omega arith in
      rw (
        first,
        hex_array-values env a b c d e vs (j * 2) high at_high,
        second,
        hex_array-values env a b c d e vs (j * 2 + 1) low at_low,
      )

  -- With memory, the reply of a known PLC, made of bytes, that starts with an address from 512 on, and
  -- whose registers have zero as their low byte, is reported with one number for each register that has
  -- a name, in order: 256 times the register's high byte. The registers end before the address 1025, and
  -- the reply fits the array.
  pub words_reported :
      (env : Stack) (plcs : List PlcNode) (p : PlcNode) (lorasn : Text) (plc f n sh sl : ℕ)
      (hs rest : List ℕ) (r : Reporter)
      → ((j : ℕ) → env.found j ≡ true)
      → ((j : ℕ) → env.node_found j ≡ true)
      → AllBytes (plc ∷ f ∷ n ∷ sh ∷ sl ∷ (even_words hs ++ rest))
      → get_plc_node (pos plc) plcs ≡ some p
      → max_1byte_len_reg < sh * 256 + sl
      → sh * 256 + sl + length hs ≤ 1025
      → (n - 2) / 2 ≡ length hs
      → length (even_words hs ++ rest) + 5 ≤ hex_size
      → eb_ws_parse_non_weather_data J env plcs lorasn
          (hex2ascii (plc ∷ f ∷ n ∷ sh ∷ sl ∷ (even_words hs ++ rest)))
          r
        ≡ ok (
            eb_publish
              (report_text J r.msgid_in_payload lorasn
                (named p (sh * 256 + sl) (map (λ h. pos (h * 256)) hs)))
              (record r { msgid_in_payload = r.msgid_in_payload + 1 }))
  unfolding eb_ws_parse_non_weather_data
  words_reported env plcs p lorasn plc f n sh sl hs rest r all nodes bytes known high inside count
        fits =
      let vs : List ℕ = even_words hs ++ rest in
      let bs : List ℕ = plc ∷ f ∷ n ∷ sh ∷ sl ∷ vs in
      let room : leb (length bs) hex_size ≡ true = ground arith in
      let two_bytes : leb (sh * 256 + sl) max_1byte_len_reg ≡ false = ground arith in
      let value : ℕ → ℤ = λ j. pos (get_or hs j 0 * 256) in
      rw (ascii2hex-hex2ascii bs bytes, room, two_bytes, count)
        (report-ok J env.found env.node_found lorasn (pos plc) plcs p (sh * 256 + sl)
            (λ j. hex_array env bs (5 + j)) (length hs) 2 value r all nodes known
            (λ j lt.
              let high_byte = get_or hs j 0 in
              let is_byte = even_words-byte hs rest j bytes.1.1.1.1.1 lt in
              let (at_high, at_low) =
                even_words-at hs rest j high_byte (get_elem?-get_or hs j lt) in
              word_at env plc f n sh sl vs j high_byte 0 is_byte (omega arith) at_high at_low
              ∙ (two_byte_value_iff high_byte 0 is_byte (omega arith)).0.1 refl
              ∙ ap (λ x. ok (pos x)) (omega arith))
            (omega arith)
          ∙ ap
              (λ xs. ok (
                eb_publish (report_text J r.msgid_in_payload lorasn (named p (sh * 256 + sl) xs))
                  (record r { msgid_in_payload = r.msgid_in_payload + 1 })))
              (values_from-list (λ h. pos (h * 256)) hs value 0 (λ j lt. ap value (zero-plus j))))
