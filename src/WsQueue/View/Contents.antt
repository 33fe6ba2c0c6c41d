-- ===== src/WsQueue/View/Contents.antt =====
-- src/wsclient.c: the queues up to what they send, and the lists of texts.
use std.Equiv.{Iso, iso_to_equiv}
use std.Path.{transport}
use std.Univalence.{iso_to_path, ua-β}
use mathlib.Core.Quot
use mathlib.Core.Quot.{Quot, Quot-set}
use edgebox.Prelude.{ℕ, ◌≡◌, refl, ap, Bool, true, List, [], ◌∷◌, ◌↔◌}
use edgebox.Prelude.Text.{Text}
use edgebox.Memory.{Ptr, Queue}
use edgebox.Memory.Room.{free_address}
use edgebox.WsQueue.{EbWsMsg}
use edgebox.WsQueue.Pushes.{Holds, eb_ws_write-Holds}
use edgebox.WsQueue.Refinement.{begin}
use edgebox.WsQueue.View.{
  Pointers, SendSame, View, Texts, texts, Texts-set, same_texts, send_same, CanWrite, Writes,
  both_written,
}

module _ (lws_pre : ℕ) where
  -- Every list of texts is held by some pointers: the texts are written, the last one first.
  held : (ms : List Text) → (q : Queue EbWsMsg) × Holds q ms
  held [] =
      (begin.queue, ([], record { head = refl; tail = refl; chain = tt }, (λ x o. refl), refl))
  held (m ∷ ms) =
      let (q, (cs, v, f, e)) = held ms in
      let (p, ne, free) = free_address q.heap cs f in
      let (r, _, h) = eb_ws_write-Holds q ms p m true (cs, v, f, e) ne free in (r, h)

  pointers : Texts lws_pre → Pointers lws_pre
  pointers (ms, f) = let (q, h) = held ms in record { queue = q; pending = ms; holds = h; fit = f }

  views : Iso (View lws_pre) (Texts lws_pre)
  unfolding pointers
  views = record {
    fun = Quot.lift (Texts-set lws_pre) (texts lws_pre) (same_texts lws_pre);
    inv = λ t. Quot.mk (pointers t);
    rinv = λ t. refl;
    linv =
        Quot.ind (λ v. Quot-set _ _)
          (λ x. Quot.sound (send_same lws_pre (pointers (texts lws_pre x)) x refl));
  }

  -- Two queues send the same, however many callbacks come, exactly if they hold the same texts; a text
  -- that is written to both, wherever memory is found, keeps them so; and the type of the queues up to
  -- what they send is that of the lists of texts that fit the buffer, a queue being what it holds.
  pub views_are_texts :
      ((x y : Pointers lws_pre) → SendSame lws_pre x y ↔ (x.pending ≡ y.pending))
      × ((x y : Pointers lws_pre) (p r : Ptr) (m : Text) (priority : Bool)
          → SendSame lws_pre x y
          → CanWrite lws_pre x p m
          → CanWrite lws_pre y r m
          → (x' : Pointers lws_pre) × (y' : Pointers lws_pre) × Writes lws_pre x p m priority x'
            × Writes lws_pre y r m priority y'
            × SendSame lws_pre x' y')
      × ((same : ◌≡◌ {A = Type 0} (View lws_pre) (Texts lws_pre)) × ((x : Pointers lws_pre)
            → transport same (Quot.mk x) ≡ texts lws_pre x))
  unfolding views
  views_are_texts = (
    λ x y. ((λ same. ap (λ t. t.0) (same_texts lws_pre x y same)), send_same lws_pre x y),
    (both_written lws_pre),
    (iso_to_path views, λ x. ua-β (iso_to_equiv views) (Quot.mk x)),
  )
