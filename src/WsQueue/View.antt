-- ===== src/WsQueue/View.antt =====
-- src/wsclient.c: what the pointers of the queue stand for, up to what the websocket ever shows.
pub mod Contents
pub mod Examples
use std.Equiv.{Iso, iso_to_equiv}
use std.Path.{transport}
use std.Univalence.{iso_to_path, ua-β}
use mathlib.Core.HLevel.{Σ_prop_path, Σ_set, prop→set}
use mathlib.Core.Quot
use mathlib.Core.Quot.{Quot, Quot-set}
use native.Mathlib.Bridge.{le_prop}
use edgebox.Prelude.{
  ℕ, zero, suc, ◌+◌, ◌≤◌, ◌≡◌, ◌≢◌, refl, sym, ap, ◌∙◌, Bool, true, none, some, Option, List, [],
  ◌∷◌, ◌++◌, take, length, ◌↔◌, arith,
}
use edgebox.Prelude.Text.{Text}
use edgebox.Memory.{Ptr, null, Queue}
use edgebox.Memory.Room.{free_address}
use edgebox.WsQueue.{
  EbWsMsg, Action, callback_on_writable, ws_tx_buffer_len, eb_ws_write, ws_callback,
  client_writeable,
}
use edgebox.WsQueue.Pushes.{Holds, enqueue, eb_ws_write-Holds, writeable-nil, writeable-cons}
use edgebox.WsQueue.Refinement.{begin, frames, AllFit, AllFit-enqueue}

-- The texts of `n` writeable callbacks; `none` is a fault.
pub sends : ℕ → ℕ → Queue EbWsMsg → Option (List Text)
sends lws_pre zero q = some []
sends lws_pre (suc n) q = elim (ws_callback lws_pre client_writeable q) [
  | none ↦ none
  | some (acts, r) ↦ elim (sends lws_pre n r) [ none ↦ none | some ms ↦ some (frames acts ++ ms) ]
]

take-nil : (n : ℕ) → take {A = Text} n [] ≡ []
take-nil zero = refl
take-nil (suc n) = refl

take_all : (n : ℕ) (xs : List Text) → length xs ≤ n → take n xs ≡ xs
take_all zero [] le = refl
take_all zero (x ∷ xs) le = absurd (omega arith)
take_all (suc n) [] le = refl
take_all (suc n) (x ∷ xs) le = ap (λ ys. x ∷ ys) (take_all n xs (omega arith))

module _ (lws_pre : ℕ) where
  -- Pointers and memory that hold texts, each of which fits the buffer of the callback.
  pub record Pointers : Type 0 where
    pub queue : Queue EbWsMsg
    pub pending : List Text
    pub holds : Holds queue pending
    pub fit : AllFit lws_pre pending

  -- However many callbacks come, both send the same.
  abbrev pub SendSame : Pointers → Pointers → Type 0
  SendSame x y = (n : ℕ) → sends lws_pre n x.queue ≡ sends lws_pre n y.queue

  -- The queue with its pointers forgotten.
  abbrev pub View : Type 0
  View = Quot SendSame

  abbrev pub Texts : Type 0
  Texts = (ms : List Text) × AllFit lws_pre ms

  abbrev pub texts : Pointers → Texts
  texts x = (x.pending, x.fit)

  sends-take :
      (n : ℕ) (q : Queue EbWsMsg) (ms : List Text)
      → Holds q ms
      → AllFit lws_pre ms
      → sends lws_pre n q ≡ some (take n ms)
  unfolding sends ws_callback
  sends-take zero q ms h f = refl
  sends-take (suc n) q [] h f =
      rw (writeable-nil lws_pre q h, sends, sends-take n q [] h f, sends) (rw (take-nil n))
  sends-take (suc n) q (m ∷ ms) h f =
      let (r, e, h') = writeable-cons lws_pre q m ms h f.0 in
      rw (e, sends, sends-take n r ms h' f.1)

  AllFit-prop : (ms : List Text) → IsProp (AllFit lws_pre ms)
  AllFit-prop [] = hlevel
  AllFit-prop (m ∷ ms) = λ x y i. (le_prop x.0 y.0 i, AllFit-prop ms x.1 y.1 i)

  List-set : IsSet (List Text)
  List-set = hlevel

  pub Texts-set : IsSet Texts
  Texts-set = Σ_set List-set (λ ms. prop→set (AllFit-prop ms))

  Texts-ext : (a b : Texts) → a.0 ≡ b.0 → a ≡ b
  Texts-ext a b e = Σ_prop_path AllFit-prop e

  -- What is sent by as many callbacks as either has texts tells the texts.
  pub same_texts : (x y : Pointers) → SendSame x y → texts x ≡ texts y
  same_texts x y same =
      let n = length x.pending + length y.pending in
      let shown : some (take n x.pending) ≡ some (take n y.pending) =
        sym (sends-take n x.queue x.pending x.holds x.fit)
        ∙ same n
        ∙ sends-take n y.queue y.pending y.holds y.fit in
      let taken : take n x.pending ≡ take n y.pending = cc in
      Texts-ext (texts x) (texts y)
        (sym (take_all n x.pending (omega arith)) ∙ taken ∙ take_all n y.pending (omega arith))

  pub send_same : (x y : Pointers) → x.pending ≡ y.pending → SendSame x y
  send_same x y e n =
      sends-take n x.queue x.pending x.holds x.fit
      ∙ ap (λ ms. some (take n ms)) e
      ∙ sym (sends-take n y.queue y.pending y.holds y.fit)

  -- Memory is found at `p`, and the text fits.
  abbrev pub CanWrite : Pointers → Ptr → Text → Type 0
  CanWrite x p m = (p ≢ null) × (x.queue.heap p ≡ none) × (lws_pre + length m ≤ ws_tx_buffer_len)

  -- `y` is `x` after the write.
  abbrev pub Writes : Pointers → Ptr → Text → Bool → Pointers → Type 0
  Writes x p m priority y =
      (eb_ws_write (some p) true m (length m) priority x.queue
        ≡ some (callback_on_writable ∷ [], y.queue))
      × (y.pending ≡ enqueue priority m x.pending)

  can_write :
      (x : Pointers) (p : Ptr) (m : Text) (priority : Bool)
      → CanWrite x p m
      → (y : Pointers) × Writes x p m priority y
  can_write x p m priority (ne, free, fits) =
      let (q, e, h) = eb_ws_write-Holds x.queue x.pending p m priority x.holds ne free in
      (
        record {
          queue = q;
          pending = enqueue priority m x.pending;
          holds = h;
          fit = AllFit-enqueue lws_pre priority m x.pending fits x.fit;
        },
        (e, refl),
      )

  pub both_written :
      (x y : Pointers) (p r : Ptr) (m : Text) (priority : Bool)
      → SendSame x y
      → CanWrite x p m
      → CanWrite y r m
      → (x' : Pointers) × (y' : Pointers) × Writes x p m priority x'
        × Writes y r m priority y'
        × SendSame x' y'
  both_written x y p r m priority same can can' =
      let (x', w) = can_write x p m priority can in
      let (y', w') = can_write y r m priority can' in
      let pending : x.pending ≡ y.pending = ap (λ t. t.0) (same_texts x y same) in
      (x', y', w, w', send_same x' y' (w.1 ∙ ap (λ ms. enqueue priority m ms) pending ∙ sym w'.1))
