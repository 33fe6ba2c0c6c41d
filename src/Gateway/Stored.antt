-- ===== src/Gateway/Stored.antt =====
-- src/wsclient.c: the commands for which memory was found, against the log of the queue.
use edgebox.Prelude.{
  ℕ, ◌≡◌, refl, sym, ap, Bool, true, false, List, [], ◌∷◌, ◌++◌, if◌then◌else◌, append-nil, inl,
  inr, Bool-cases,
}
use edgebox.Prelude.Text.{Text}
use edgebox.WsQueue.Refinement.{Session, Write, Op, wrote, called_back, writes}
use edgebox.WsQueue.Refinement
use edgebox.WsQueue.Lanes.{written}
use edgebox.Gateway.{Attempt, is_stored}

-- The texts for which memory was found.
abbrev pub stored_texts : List Attempt → List Text
stored_texts [] = []
stored_texts (a ∷ as') = if a.stored then a.send.text ∷ stored_texts as' else stored_texts as'

pub stored_texts-snoc :
    (as' : List Attempt) (a : Attempt)
    → stored_texts (as' ++ a ∷ []) ≡ stored_texts as' ++ stored_texts (a ∷ [])
stored_texts-snoc [] a = refl
stored_texts-snoc (b ∷ bs) a = elim (Bool-cases b.stored) [
  | inl kept ↦ rw kept (ap (λ ts. b.send.text ∷ ts) (stored_texts-snoc bs a))
  | inr lost ↦ rw lost (stored_texts-snoc bs a)
]

pub written-command :
    {lws_pre : ℕ} {m : Text} {priority : Bool} {s t : Session}
    → (w : Write lws_pre m priority s t) → priority ≡ true
    → written true t.log
      ≡ written true s.log
        ++ stored_texts
            (record { send = record { text = m; priority = priority }; stored = is_stored w } ∷ [])
unfolding written
written-command (Write.write p acts q ne free fits e) h = rw h
written-command (Write.no_node buffer acts q e) h = sym (append-nil _)
written-command (Write.no_buffer p acts q free e) h = sym (append-nil _)

pub written-query :
    {lws_pre : ℕ} {m : Text} {priority : Bool} {s t : Session}
    → Write lws_pre m priority s t
    → priority ≡ false
    → written true t.log ≡ written true s.log
unfolding written
written-query (Write.write p acts q ne free fits e) h = rw h
written-query (Write.no_node buffer acts q e) h = refl
written-query (Write.no_buffer p acts q free e) h = refl

pub written-called :
    {lws_pre : ℕ} {s t : Session}
    → Refinement.Callback lws_pre s t
    → written true t.log ≡ written true s.log
unfolding written
written-called (Refinement.callback acts q e) = refl
