-- ===== src/WsQueue/Pushes.antt =====
-- src/wsclient.c: what `eb_ws_write` and a writeable callback do to the queue of messages.
use edgebox.Prelude.{
  ℕ, ◌+◌, ◌≤◌, ◌≡◌, refl, sym, ap, ◌∙◌, ◌≢◌, Bool, true, false, none, some, List, [], ◌∷◌, ◌++◌,
  map, ◌==◌, length, take-length, if◌then◌else◌, arith, ==_ne, le→leb,
}
use edgebox.Prelude.Text.{Text}
use edgebox.Memory.{Ptr, null, Heap, Queue, write, release}
use edgebox.Memory.Linked.{
  has, first, last, IsQueue, contents, contents-snoc, has_of_none, Linked-write, release-IsQueue,
  SameOutside,
}
use edgebox.Memory.Leaks.{NoLeak, write-NoLeak, snoc-NoLeak, release-NoLeak}
use edgebox.Memory.Pointers.{link_tail-snoc, take_head-cons}
use edgebox.WsQueue.{
  EbWsMsg, link_head, link_back, eb_ws_msg_en_q, eb_ws_msg_de_q, callback_on_writable, lws_write,
  poll_wait, ws_tx_buffer_len, send_node, writeable, eb_ws_write,
}

-- A message with its own length, as all callers pass it.
abbrev pub whole : Text → EbWsMsg
whole m = record { msg = m; len = length m }

-- The queue holds the texts `pending`, the next one first, and memory has no other node.
abbrev pub Holds : Queue EbWsMsg → List Text → Type 0
Holds q pending =
    (cs : List (Ptr × EbWsMsg)) × IsQueue q cs
    × NoLeak q.heap cs
    × (contents cs ≡ map whole pending)

-- With nothing pending, memory has no node.
pub Holds-empty : (q : Queue EbWsMsg) → Holds q [] → (p : Ptr) → q.heap p ≡ none
Holds-empty q ([], v, f, e) p = f p refl
Holds-empty q (c ∷ cs, v, f, e) p = cc

-- Where a new message goes: a command from the hub to the front, any other to the back.
abbrev pub enqueue : Bool → Text → List Text → List Text
enqueue true m pending = m ∷ pending
enqueue false m pending = pending ++ m ∷ []

map-whole-snoc :
    (xs : List Text) (m : Text) → map whole (xs ++ m ∷ []) ≡ map whole xs ++ whole m ∷ []
map-whole-snoc [] m = refl
map-whole-snoc (x ∷ xs) m = ap (λ ys. whole x ∷ ys) (map-whole-snoc xs m)

pub link_head-IsQueue :
    (q : Queue EbWsMsg) (cs : List (Ptr × EbWsMsg)) (p : Ptr) (m : EbWsMsg)
    → IsQueue q cs
    → p ≢ null
    → q.heap p ≡ none
    → IsQueue (link_head p m q) ((p, m) ∷ cs)
unfolding link_head write
link_head-IsQueue q cs p m v ne free = record {
  head = refl;
  tail = new_tail cs v;
  chain = (ne, ground (arith, v.head), out, Linked-write q.heap p _ cs v.chain out);
}
  where
    out : has p cs ≡ false
    out = has_of_none q.heap p cs v.chain free

    new_tail :
        (ds : List (Ptr × EbWsMsg))
        → IsQueue q ds
        → (if q.head == null then p else q.tail) ≡ last ((p, m) ∷ ds)
    new_tail [] w = rw w.head
    new_tail (d ∷ ds) w = rw (==_ne q.head null (λ e. w.chain.0 (sym w.head ∙ e))) w.tail

link_head-NoLeak :
    (q : Queue EbWsMsg) (cs : List (Ptr × EbWsMsg)) (p : Ptr) (m : EbWsMsg)
    → NoLeak q.heap cs
    → NoLeak (link_head p m q).heap ((p, m) ∷ cs)
unfolding link_head
link_head-NoLeak q cs p m f = write-NoLeak q.heap p q.head m cs f

pub link_back-IsQueue :
    (q : Queue EbWsMsg) (cs : List (Ptr × EbWsMsg)) (p : Ptr) (m : EbWsMsg)
    → IsQueue q cs
    → p ≢ null
    → q.heap p ≡ none
    → (q' : Queue EbWsMsg) × (link_back p m q ≡ some q')
      × IsQueue q' (cs ++ (p, m) ∷ [])
      × SameOutside ((p, m) ∷ cs) q.heap q'.heap
unfolding link_back write
link_back-IsQueue q cs p m v ne free =
    let out : has p cs ≡ false = has_of_none q.heap p cs v.chain free in
    let r : Queue EbWsMsg = record q {
      heap = write q.heap p (some (record { payload = m; next = null }));
    } in
    let w : IsQueue r cs = record {
      head = v.head;
      tail = v.tail;
      chain = Linked-write q.heap p _ cs v.chain out;
    } in
    let (q', e, w', same) = link_tail-snoc r p m cs w ne (ground arith) out in
    (q', e, w', λ x o. same x (ground arith) ∙ ground arith)

-- With memory at hand `eb_ws_write` adds exactly its message: in front of all others if it has
-- priority, else behind them; and it asks for a writeable callback.
pub eb_ws_write-Holds :
    (q : Queue EbWsMsg) (pending : List Text) (p : Ptr) (m : Text) (priority : Bool)
    → Holds q pending
    → p ≢ null
    → q.heap p ≡ none
    → (q' : Queue EbWsMsg) × (eb_ws_write (some p) true m (length m) priority q
        ≡ some (callback_on_writable ∷ [], q'))
      × Holds q' (enqueue priority m pending)
unfolding eb_ws_write eb_ws_msg_en_q
eb_ws_write-Holds q pending p m true (cs, v, f, e) ne free = (
  link_head p (whole m) q,
  rw (take-length m),
  (
    (p, whole m) ∷ cs,
    link_head-IsQueue q cs p (whole m) v ne free,
    link_head-NoLeak q cs p (whole m) f,
    rw e,
  ),
)
eb_ws_write-Holds q pending p m false (cs, v, f, e) ne free =
    let (q', eq, w, same) = link_back-IsQueue q cs p (whole m) v ne free in
    (
      q',
      rw (take-length m, eb_ws_write, eb_ws_msg_en_q, eq),
      (
        cs ++ (p, whole m) ∷ [],
        w,
        snoc-NoLeak q.heap q'.heap p (whole m) cs same f,
        contents-snoc cs p (whole m) ∙ rw (e, map-whole-snoc pending m),
      ),
    )

-- A writeable callback on an empty queue does nothing.
pub writeable-nil :
    (lws_pre : ℕ) (q : Queue EbWsMsg) → Holds q [] → writeable lws_pre q ≡ some ([], q)
unfolding writeable
writeable-nil lws_pre q ([], v, f, e) = rw v.head
writeable-nil lws_pre q (c ∷ cs, v, f, e) = cc

send_node-whole :
    (lws_pre : ℕ) (q : Queue EbWsMsg) (p next : Ptr) (m : Text)
    → q.heap p ≡ some (record { payload = whole m; next = next })
    → lws_pre + length m ≤ ws_tx_buffer_len
    → send_node lws_pre p q
      ≡ some (lws_write m ∷ poll_wait 3500 ∷ callback_on_writable ∷ [], release q p)
unfolding send_node
send_node-whole lws_pre q p next m hold fits = rw (hold, send_node, le→leb _ _ fits, take-length m)

-- A writeable callback sends the first message, waits for the air interface, asks to be called
-- again, and leaves the others.
pub writeable-cons :
    (lws_pre : ℕ) (q : Queue EbWsMsg) (m : Text) (rest : List Text)
    → Holds q (m ∷ rest)
    → lws_pre + length m ≤ ws_tx_buffer_len
    → (q' : Queue EbWsMsg) × (writeable lws_pre q
        ≡ some (lws_write m ∷ poll_wait 3500 ∷ callback_on_writable ∷ [], q'))
      × Holds q' rest
unfolding writeable eb_ws_msg_de_q
writeable-cons lws_pre q m rest ([], v, f, e) fits = cc
writeable-cons lws_pre q m rest ((p, a) ∷ cs, v, f, e) fits =
    let (r, taken, w, same) = take_head-cons q null p a cs v in
    let is_whole : a ≡ whole m = cc in
    let hold : r.heap p ≡ some (record { payload = whole m; next = first cs }) =
      ap (λ (h : Heap EbWsMsg). h p) same
      ∙ v.chain.1
      ∙ ap (λ b. some (record { payload = b; next = first cs })) is_whole in
    (
      release r p,
      rw (nonempty, taken, writeable) (send_node-whole lws_pre r p (first cs) m hold fits),
      (
        cs,
        release-IsQueue r p cs w v.chain.2,
        release-NoLeak r p a cs (λ x o. ap (λ (h : Heap EbWsMsg). h x) same ∙ f x o),
        cc,
      ),
    )
  where
    nonempty : (q.head == null) ≡ false
    nonempty = ==_ne q.head null (λ z. v.chain.0 (sym v.head ∙ z))
