-- ===== src/WsQueue/View/Examples.antt =====
-- One text in two places of memory.
use std.Path.{transport}
use mathlib.Core.Quot
use edgebox.Prelude.{◌≡◌, ◌≢◌, ◌↔◌, refl, Bool, false, [], ◌∷◌, arith}
use edgebox.Prelude.Text.{Text, codes}
use edgebox.Memory.{Ptr}
use edgebox.WsQueue.Pushes.{eb_ws_write-Holds}
use edgebox.WsQueue.Refinement.{begin}
use edgebox.WsQueue.View.{Pointers, SendSame, View, Texts, texts, CanWrite, Writes}
use edgebox.WsQueue.View.Contents.{views_are_texts}

abbrev written_at : (p : Ptr) → p ≢ 0 → Pointers 16
written_at p ne =
    let (q, _, h) =
      eb_ws_write-Holds begin.queue [] p (codes "query") false
        ([], record { head = refl; tail = refl; chain = tt }, (λ x o. refl), refl) ne refl in
    record { queue = q; pending = codes "query" ∷ []; holds = h; fit = (omega arith, tt) }

-- However many callbacks come, nobody sees the address.
same_at_both : SendSame 16 (written_at 5 (λ e. omega arith)) (written_at 9 (λ e. omega arith))
same_at_both =
    ((views_are_texts 16).0 (written_at 5 (λ e. omega arith)) (written_at 9 (λ e. omega arith))).1
      refl

views_are_texts_example :
    ((x y : Pointers 16) → SendSame 16 x y ↔ (x.pending ≡ y.pending))
    × ((x y : Pointers 16) (p r : Ptr) (m : Text) (priority : Bool)
        → SendSame 16 x y
        → CanWrite 16 x p m
        → CanWrite 16 y r m
        → (x' : Pointers 16) × (y' : Pointers 16) × Writes 16 x p m priority x'
          × Writes 16 y r m priority y'
          × SendSame 16 x' y')
    × ((same : ◌≡◌ {A = Type 0} (View 16) (Texts 16)) × ((x : Pointers 16)
          → transport same (Quot.mk x) ≡ texts 16 x))
views_are_texts_example = views_are_texts 16
