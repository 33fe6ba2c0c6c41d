-- ===== src/Gateway/Reports.antt =====
-- src/wsclient.c, src/mqtt.c: the reports of the running gateway, before the first connection to the hub
-- and behind it.
use edgebox.Prelude.{
  ℕ, ◌+◌, ◌%◌, ◌≤◌, ◌≡◌, ◌⊎◌, inl, inr, refl, sym, ap, ◌∙◌, List, [], ◌∷◌, ◌++◌, append-nil,
  append_assoc, length, length-append, arith,
}
use edgebox.Prelude.Text.{Text}
use edgebox.Json.{CJson}
use edgebox.Switches.{Switches}
use edgebox.Report.{MqttMessage, Reporter, eb_publish}
use edgebox.Uplink.{Config}
use edgebox.Uplink.Published.{PublishesOne, ws_receive_msg-PublishesOne}
use edgebox.Uplink.Numbering.{Numbered, Numbered-snoc, PublishesOne-length}
use edgebox.Gateway.{
  Gateway, begin, Step, connects, received, handle, commanded, queried, writeable, reported, Reach,
  here, next,
}
use edgebox.Gateway.Progress.{Later, stay, after}

-- Since `before` was published all messages stand under `topic`, with the numbers that follow.
record IsSince (topic : Text) (before : List MqttMessage) (r : Reporter) : Type 0 where
  topic_now : r.eb_pub_topic ≡ topic
  count : r.msgid ≡ length r.published
  new : List MqttMessage
  split : r.published ≡ before ++ new
  numbered : Numbered topic (length before) new

-- A first one that stands under no other topic.
starts-IsSince :
    (topic : Text) (r : Reporter)
    → r.eb_pub_topic ≡ topic
    → r.msgid ≡ length r.published
    → IsSince topic r.published r
starts-IsSince topic r now count = record {
  topic_now = now;
  count = count;
  new = [];
  split = sym (append-nil r.published);
  numbered = tt;
}

PublishesOne-IsSince :
    (topic : Text) (before : List MqttMessage) (r t : Reporter)
    → PublishesOne r t
    → IsSince topic before r
    → IsSince topic before t
unfolding eb_publish
PublishesOne-IsSince topic before r t (inl same) v = rw same v
PublishesOne-IsSince topic before r t (inr (inl same)) v = rw same (record {
  topic_now = v.topic_now;
  count = v.count;
  new = v.new;
  split = v.split;
  numbered = v.numbered;
})
PublishesOne-IsSince topic before r t (inr (inr (payload, same))) v =
    let m : MqttMessage = record {
      topic = r.eb_pub_topic;
      id = r.msgid % 65536;
      payload = payload;
    } in
    let number : length before + length v.new ≡ r.msgid = omega (
      arith,
      v.count,
      ap (λ (ms : List MqttMessage). length ms) v.split,
      length-append before v.new,
    ) in
    rw same (record {
      topic_now = v.topic_now;
      count = omega (arith, v.count, length-append r.published (m ∷ []));
      new = v.new ++ m ∷ [];
      split = ap (λ ms. ms ++ m ∷ []) v.split ∙ append_assoc before v.new (m ∷ []);
      numbered =
          rw (v.topic_now, ← number) (Numbered-snoc topic (length before) v.new payload v.numbered);
    })

-- The messages before the first connection stand under no topic, and those behind it under that of the
-- device.
data Phase (topic : Text) (r : Reporter) : Type 0 where
  unconnected : IsSince [] [] r → Phase topic r
  connected :
      (early : List MqttMessage) → Numbered [] 0 early → IsSince topic early r → Phase topic r

connects-Phase :
    (topic : Text) (r : Reporter) → Phase topic r → Phase topic (record r { eb_pub_topic = topic })
connects-Phase topic r (unconnected v) =
    connected r.published (rw v.split v.numbered)
      (starts-IsSince topic (record r { eb_pub_topic = topic }) refl v.count)
connects-Phase topic r (connected early h v) = connected early h (record {
  topic_now = refl;
  count = v.count;
  new = v.new;
  split = v.split;
  numbered = v.numbered;
})

PublishesOne-Phase :
    (topic : Text) (r t : Reporter) → PublishesOne r t → Phase topic r → Phase topic t
PublishesOne-Phase topic r t one (unconnected v) =
    unconnected (PublishesOne-IsSince [] [] r t one v)
PublishesOne-Phase topic r t one (connected early h v) =
    connected early h (PublishesOne-IsSince topic early r t one v)

Phase-count : (topic : Text) (r : Reporter) → Phase topic r → r.msgid ≡ length r.published
Phase-count topic r (unconnected v) = v.count
Phase-count topic r (connected early h v) = v.count

module _ (J : CJson) (switches : Switches) (config : Config) (lws_pre : ℕ) (topic : Text) where
  record IsReporting (w : Gateway) : Type 0 where
    phase : Phase topic w.reporter
    few : length w.reporter.published ≤ length w.server_texts

  Step-IsReporting :
      {w v : Gateway} → Step J switches config lws_pre topic w v → IsReporting w → IsReporting v
  Step-IsReporting {w} connects o = record {
    phase = connects-Phase topic w.reporter o.phase;
    few = o.few;
  }
  Step-IsReporting (received c) o = record { phase = o.phase; few = o.few }
  Step-IsReporting (handle found env out s sends idle e h) o = record {
    phase = o.phase;
    few = o.few;
  }
  Step-IsReporting (commanded send rest e made) o = record { phase = o.phase; few = o.few }
  Step-IsReporting (queried env send e made) o = record { phase = o.phase; few = o.few }
  Step-IsReporting (writeable c) o = record { phase = o.phase; few = o.few }
  Step-IsReporting {w} (reported env room text q r _ e) o =
      let one =
        ws_receive_msg-PublishesOne J env switches.plc_list config room text w.reporter r e in
      record {
        phase = PublishesOne-Phase topic w.reporter r one o.phase;
        few = omega (
          arith,
          o.few,
          PublishesOne-length w.reporter r one,
          length-append {A = Text} w.server_texts (text ∷ []),
        );
      }

  Reach-IsReporting : {w : Gateway} → Reach J switches config lws_pre topic w → IsReporting w
  Reach-IsReporting here = record {
    phase = unconnected (starts-IsSince [] begin.reporter refl refl);
    few = omega arith;
  }
  Reach-IsReporting (next r st) = Step-IsReporting st (Reach-IsReporting r)

  -- Once the topic is set, a step keeps what was published and goes on with the numbers.
  Step-IsSince :
      {w v : Gateway} (before : List MqttMessage)
      → Step J switches config lws_pre topic w v
      → IsSince topic before w.reporter
      → IsSince topic before v.reporter
  Step-IsSince before connects o = record {
    topic_now = refl;
    count = o.count;
    new = o.new;
    split = o.split;
    numbered = o.numbered;
  }
  Step-IsSince before (received c) o = o
  Step-IsSince before (handle found env out s sends idle e h) o = o
  Step-IsSince before (commanded send rest e made) o = o
  Step-IsSince before (queried env send e made) o = o
  Step-IsSince before (writeable c) o = o
  Step-IsSince {w} before (reported env room text q r _ e) o =
      PublishesOne-IsSince topic before w.reporter r
        (ws_receive_msg-PublishesOne J env switches.plc_list config room text w.reporter r e) o

  Later-IsSince :
      {w v : Gateway} (before : List MqttMessage)
      → Later J switches config lws_pre topic w v
      → IsSince topic before w.reporter
      → IsSince topic before v.reporter
  Later-IsSince before stay o = o
  Later-IsSince before (after st l) o = Later-IsSince before l (Step-IsSince before st o)

  -- In every interleaving of the callbacks and threads with the connections of the main thread, the
  -- messages that were handed to the client stand under the empty topic up to some point, and behind it
  -- under the topic of the device: either the topic is still empty, and all stand under it, or the topic
  -- is that of the device. They have the numbers from 0 on, modulo 65536, as identifiers, and are no
  -- more than the texts that the server sent.
  pub reports-Numbered :
      {w : Gateway}
      → Reach J switches config lws_pre topic w
      → (early late : List MqttMessage) × (w.reporter.published ≡ early ++ late)
        × Numbered [] 0 early
        × Numbered topic (length early) late
        × (((w.reporter.eb_pub_topic ≡ []) × (late ≡ [])) ⊎ (w.reporter.eb_pub_topic ≡ topic))
        × (length w.reporter.published ≤ length w.server_texts)
  reports-Numbered {w} r = by (Reach-IsReporting r).phase
    where
      few : length w.reporter.published ≤ length w.server_texts
      few = (Reach-IsReporting r).few

      by :
          Phase topic w.reporter
          → (early late : List MqttMessage) × (w.reporter.published ≡ early ++ late)
            × Numbered [] 0 early
            × Numbered topic (length early) late
            × (((w.reporter.eb_pub_topic ≡ []) × (late ≡ [])) ⊎ (w.reporter.eb_pub_topic ≡ topic))
            × (length w.reporter.published ≤ length w.server_texts)
      by (unconnected v) = (
        v.new,
        [],
        v.split ∙ sym (append-nil v.new),
        v.numbered,
        tt,
        inl (v.topic_now, refl),
        few,
      )
      by (connected early h v) = (early, v.new, v.split, h, v.numbered, inr v.topic_now, few)

  -- Behind a connection, whatever was published before it: what is published from there on stands under
  -- the topic, with the numbers that follow.
  pub reports_later :
      {w v : Gateway}
      → Reach J switches config lws_pre topic w
      → w.reporter.eb_pub_topic ≡ topic
      → Later J switches config lws_pre topic w v
      → (new : List MqttMessage) × (v.reporter.published ≡ w.reporter.published ++ new)
        × Numbered topic (length w.reporter.published) new
  reports_later {w} {v} r now l =
      let o = Later-IsSince w.reporter.published l (
        starts-IsSince topic w.reporter now
          (Phase-count topic w.reporter (Reach-IsReporting r).phase)) in
      (o.new, o.split, o.numbered)
