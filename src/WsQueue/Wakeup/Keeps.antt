-- ===== src/WsQueue/Wakeup/Keeps.antt =====
-- src/wsclient.c: what a call of `eb_ws_msgEnQ` leaves as it was.
use edgebox.Prelude.{
  ℕ, ◌+◌, ◌≤◌, ◌≡◌, refl, ◌≢◌, Bool, true, false, Option, none, some, List, [], ◌∷◌, ◌++◌, ◌∙◌, sym,
  arith, ap, take,
}
use edgebox.Prelude.Text.{Text}
use edgebox.Memory.{Ptr, null, Queue, Node, write, release}
use edgebox.WsQueue.{EbWsMsg, eb_ws_msg_en_q, ws_tx_buffer_len, link_head, link_back}
use edgebox.WsQueue.Wakeup.{IsFresh}
use edgebox.Memory.Linked.{has, IsQueue, has_of_none, has-snoc, release-IsQueue}
use edgebox.WsQueue.Pushes.{link_head-IsQueue, link_back-IsQueue}
use edgebox.WsQueue.Wakeup.Told.{shown_all, shown_all-snoc, take-take, written, told}

-- Every message fits the callback's buffer behind the library's space.
abbrev pub AllFit : ℕ → List (Ptr × EbWsMsg) → Type 0
AllFit lws_pre [] = Unit {0}
AllFit lws_pre ((p, m) ∷ cs) = (lws_pre + m.len ≤ ws_tx_buffer_len) × AllFit lws_pre cs

AllFit-snoc :
    (lws_pre : ℕ) (cs : List (Ptr × EbWsMsg)) (p : Ptr) (m : EbWsMsg)
    → AllFit lws_pre cs
    → lws_pre + m.len ≤ ws_tx_buffer_len
    → AllFit lws_pre (cs ++ (p, m) ∷ [])
AllFit-snoc lws_pre [] p m f h = (h, tt)
AllFit-snoc lws_pre (c ∷ cs) p m f h = (f.0, AllFit-snoc lws_pre cs p m f.1 h)

-- A call of `eb_ws_msgEnQ` keeps what the callback relies on: the queue `cs` becomes `ds`.
pub record Keeps (lws_pre : ℕ) (q r : Queue EbWsMsg) (cs ds : List (Ptr × EbWsMsg)) : Type 0 where
  pub queue : IsQueue r ds
  pub fits : AllFit lws_pre ds
  pub filled : cs ≢ [] → ds ≢ []
  pub held :
      (x : Ptr) (n : Node EbWsMsg)
      → q.heap x ≡ some n
      → has x cs ≡ false
      → (r.heap x ≡ some n) × (has x ds ≡ false)

snoc-ne-nil : (cs : List (Ptr × EbWsMsg)) (c : Ptr × EbWsMsg) → cs ++ c ∷ [] ≢ []
snoc-ne-nil [] c e = cc
snoc-ne-nil (x ∷ cs) c e = cc

module _ (lws_pre : ℕ) (q : Queue EbWsMsg) (cs : List (Ptr × EbWsMsg)) where
  release-Keeps :
      (p : Ptr)
      → IsQueue q cs
      → AllFit lws_pre cs
      → q.heap p ≡ none
      → Keeps lws_pre q (release q p) cs cs
  unfolding release write
  release-Keeps p v f free = record {
    queue = release-IsQueue q p cs v (has_of_none q.heap p cs v.chain free);
    fits = f;
    filled = λ ne. ne;
    held = λ x n e out. (ground (arith, e, free), out);
  }

  front-Keeps :
      (p : Ptr) (m : EbWsMsg)
      → IsQueue q cs
      → AllFit lws_pre cs
      → p ≢ null
      → q.heap p ≡ none
      → lws_pre + m.len ≤ ws_tx_buffer_len
      → Keeps lws_pre q (link_head p m q) cs ((p, m) ∷ cs)
  unfolding link_head write
  front-Keeps p m v f ne free h = record {
    queue = link_head-IsQueue q cs p m v ne free;
    fits = (h, f);
    filled = λ ne' z. cc;
    held = λ x n e out. (ground (arith, e, free), ground (arith, e, free, out));
  }

  back-Keeps :
      (p : Ptr) (m : EbWsMsg)
      → IsQueue q cs
      → AllFit lws_pre cs
      → p ≢ null
      → q.heap p ≡ none
      → lws_pre + m.len ≤ ws_tx_buffer_len
      → (r : Queue EbWsMsg) × (link_back p m q ≡ some r) × Keeps lws_pre q r cs (cs ++ (p, m) ∷ [])
  back-Keeps p m v f ne free h =
      let (r, e, w, same) = link_back-IsQueue q cs p m v ne free in
      (
        r,
        e,
        record {
          queue = w;
          fits = AllFit-snoc lws_pre cs p m f h;
          filled = λ ne' z. snoc-ne-nil cs (p, m) z;
          held = λ x n e' out.
              let differs : x ≢ p = λ z. cc (e', free, z) in
              (same x (ground (arith, out, differs)) ∙ e', has-snoc x p m cs out differs);
        },
      )

-- All ways through `eb_ws_msgEnQ`.
pub en_q-Keeps :
    (lws_pre : ℕ) (q r : Queue EbWsMsg) (cs : List (Ptr × EbWsMsg)) (node : Option Ptr)
    (buffer : Bool) (buf : Text) (len : ℕ) (priority : Bool)
    → IsQueue q cs
    → AllFit lws_pre cs
    → IsFresh node q.heap
    → lws_pre + len ≤ ws_tx_buffer_len
    → eb_ws_msg_en_q node buffer buf len priority q ≡ some r
    → (ds : List (Ptr × EbWsMsg)) × Keeps lws_pre q r cs ds
      × ((sent : List Text)
          → told
              (written node buffer buf len priority)
              (record { pending = shown_all cs; sent = sent })
            ≡ record { pending = shown_all ds; sent = sent })
unfolding eb_ws_msg_en_q
en_q-Keeps lws_pre q r cs none buffer buf len priority v f fresh h e =
    let same : q ≡ r = cc in
    (
      cs,
      rw (← same)
          (record { queue = v; fits = f; filled = λ ne. ne; held = λ x n e' out. (e', out) }),
      λ sent. refl,
    )
en_q-Keeps lws_pre q r cs (some p) false buf len priority v f (ne, free) h e =
    let same : release q p ≡ r = cc in
    (cs, rw (← same) (release-Keeps lws_pre q cs p v f free), λ sent. refl)
en_q-Keeps lws_pre q r cs (some p) true buf len true v f (ne, free) h e =
    let m : EbWsMsg = record { msg = take len buf; len = len } in
    let same : link_head p m q ≡ r = cc in
    (
      (p, m) ∷ cs,
      rw (← same) (front-Keeps lws_pre q cs p m v f ne free h),
      λ sent.
          ap (λ t. record { pending = t ∷ shown_all cs; sent = sent }) (sym (take-take len buf)),
    )
en_q-Keeps lws_pre q r cs (some p) true buf len false v f (ne, free) h e =
    let m : EbWsMsg = record { msg = take len buf; len = len } in
    let (r', linked, k) = back-Keeps lws_pre q cs p m v f ne free h in
    let same : r' ≡ r = cc (linked, e) in
    (
      cs ++ (p, m) ∷ [],
      rw (← same) k,
      λ sent.
          ap (λ ts. record { pending = ts; sent = sent })
            (ap (λ t. shown_all cs ++ t ∷ []) (sym (take-take len buf))
              ∙ sym (shown_all-snoc cs p m)),
    )
