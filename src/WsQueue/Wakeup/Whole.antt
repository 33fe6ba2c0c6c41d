-- ===== src/WsQueue/Wakeup/Whole.antt =====
-- src/wsclient.c: the steps of the writeable callback together.
use edgebox.Prelude.{
  ◌∙◌, ℕ, ◌≡◌, refl, false, Bool-cases, Option-cases, inl, inr, Option, none, some, List, [], ◌==◌,
}
use edgebox.Memory.{Ptr, null, Queue, take_head}
use edgebox.WsQueue.{EbWsMsg, Action, eb_ws_msg_de_q, send_node, writeable}
use edgebox.WsQueue.Wakeup.{WsThread, idle, taking, sending, writeable_at, writeable_step}

-- Three steps with nothing between them.
abbrev three_steps : ℕ → WsThread → Option (List Action × Queue EbWsMsg)
three_steps lws_pre s = elim (writeable_step lws_pre s) [
  | none ↦ none
  | some (_, t) ↦ elim (writeable_step lws_pre t) [
    | none ↦ none
    | some (_, u) ↦ elim (writeable_step lws_pre u) [
      | none ↦ none
      | some (acts, v) ↦ some (acts, v.queue)
    ]
  ]
]

-- The variable of the callback does not matter when there is a head.
de_q-head :
    (p : Ptr) (q : Queue EbWsMsg)
    → (q.head == null) ≡ false
    → eb_ws_msg_de_q p q ≡ eb_ws_msg_de_q null q
unfolding eb_ws_msg_de_q take_head
de_q-head p q filled = rw filled refl

module _ (lws_pre : ℕ) (s t u v : WsThread) (a b acts : List Action) where
  all_steps :
      writeable_step lws_pre s ≡ some (a, t)
      → writeable_step lws_pre t ≡ some (b, u)
      → writeable_step lws_pre u ≡ some (acts, v)
      → three_steps lws_pre s ≡ some (acts, v.queue)
  all_steps e₁ e₂ e₃ = rw (three_steps, e₁, e₂, e₃) refl

  third_faults :
      writeable_step lws_pre s ≡ some (a, t)
      → writeable_step lws_pre t ≡ some (b, u)
      → writeable_step lws_pre u ≡ none
      → three_steps lws_pre s ≡ none
  third_faults e₁ e₂ e₃ = rw (three_steps, e₁, e₂, e₃) refl

  second_faults :
      writeable_step lws_pre s ≡ some (a, t)
      → writeable_step lws_pre t ≡ none
      → three_steps lws_pre s ≡ none
  second_faults e₁ e₂ = rw (three_steps, e₁, e₂) refl

at_head : Queue EbWsMsg → Ptr → WsThread
at_head q p = record { queue = q; place = idle; msg_node = p }

behind_test : Queue EbWsMsg → Ptr → WsThread
behind_test q p = record { queue = q; place = taking; msg_node = p }

in_hand : Queue EbWsMsg → Ptr → WsThread
in_hand q p = record { queue = q; place = sending; msg_node = p }

-- Three steps of the callback with nothing between them are the callback as a whole.
three_steps-writeable :
    (lws_pre : ℕ) (q : Queue EbWsMsg) (p : Ptr)
    → three_steps lws_pre (at_head q p) ≡ writeable lws_pre q
unfolding writeable_step writeable at_head behind_test in_hand
three_steps-writeable lws_pre q p = elim (Bool-cases (q.head == null)) [
  | inl empty ↦
      let stays : writeable_step lws_pre (at_head q p) ≡ some ([], at_head q p) = rw empty refl in
      all_steps lws_pre (at_head q p) (at_head q p) (at_head q p) (at_head q p) [] [] [] stays stays
        stays
      ∙ rw (empty, writeable) refl
  | inr filled ↦
      let tested : writeable_step lws_pre (at_head q p) ≡ some ([], behind_test q p) =
        rw filled refl in
      elim (Option-cases (eb_ws_msg_de_q null q)) [
        | inl bad ↦
            second_faults lws_pre (at_head q p) (behind_test q p) (behind_test q p)
              (behind_test q p) [] [] [] tested
              (rw (writeable_step, writeable_at, de_q-head p q filled, bad) refl)
            ∙ rw (writeable, filled, bad) refl
        | inr ((r, rest), taken) ↦
            let took : writeable_step lws_pre (behind_test q p) ≡ some ([], in_hand rest r) =
              rw (writeable_step, writeable_at, de_q-head p q filled, taken) refl in
            elim (Option-cases (send_node lws_pre r rest)) [
              | inl bad ↦
                  third_faults lws_pre (at_head q p) (behind_test q p) (in_hand rest r)
                    (in_hand rest r) [] [] [] tested took
                    (rw (writeable_step, writeable_at, bad) refl)
                  ∙ rw (writeable, filled, taken, bad) refl
              | inr ((acts, after), good) ↦
                  all_steps lws_pre (at_head q p) (behind_test q p) (in_hand rest r)
                    (at_head after r) [] [] acts tested took
                    (rw (writeable_step, writeable_at, good) refl)
                  ∙ rw (writeable, filled, taken, good) refl
            ]
      ]
]
