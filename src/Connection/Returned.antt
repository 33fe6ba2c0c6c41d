-- ===== src/Connection/Returned.antt =====
-- src/mqtt.c: what a connection that did not fail leaves behind.
use edgebox.Prelude.{
  ◌≡◌, true, false, Option, Bool-cases, inl, inr, length, ltb, ltb→lt, if◌then◌else◌,
}
use edgebox.Prelude.CInt.{ℤ, pos, negsuc, eq_int, is_negative}
use edgebox.Prelude.Text.{Text}
use edgebox.Prelude.Run.{Run, ok, fault, defined, ◌>>◌}
use edgebox.Connection.{HubCalls, Topics, hub_host, topics_of, topic_size, mqtt_conn_init}
use edgebox.Connection.Outcomes.{NamesFit}

module _ (calls : HubCalls) (key : Text) (name : Option Text) (old : Topics) (rc : ℤ)
    (t : Topics) where
  -- The names fit, and the topics are those of the device.
  abbrev TopicsSet : Type 0
  TopicsSet = NamesFit key name × (t ≡ topics_of key name)

  failed :
      ◌≡◌ {A = Run (ℤ × Topics)} (ok (negsuc 0, old)) (ok (rc, t))
      → is_negative rc ≡ false
      → TopicsSet
  failed e good = cc

  overflown : ◌≡◌ {A = Run (ℤ × Topics)} fault (ok (rc, t)) → TopicsSet
  overflown e = cc

  -- The subscription decides.
  abbrev subscribed : ℤ × Topics
  subscribed = (if eq_int calls.mqtt_subscribe (pos 0) then pos 0 else negsuc 0, topics_of key name)

  same : ok subscribed ≡ ok (rc, t) → t ≡ topics_of key name
  same e = cc

  connected :
      ltb (length (hub_host key)) 128 ≡ true
      → (defined (ltb (length (topics_of key name).eb_pub_topic) topic_size)
          >> defined (ltb (length (topics_of key name).eb_sub_topic) topic_size)
          >> ok subscribed)
        ≡ ok (rc, t)
      → TopicsSet
  connected host e = elim (Bool-cases (ltb (length (topics_of key name).eb_pub_topic) topic_size)) [
    | inr long ↦ overflown (rw long at e)
    | inl publish ↦ elim (Bool-cases (ltb (length (topics_of key name).eb_sub_topic) topic_size)) [
      | inr long ↦ overflown (rw (publish, long) at e)
      | inl subscribe ↦ (
        record {
          host = ltb→lt _ _ host;
          publish = ltb→lt _ _ publish;
          subscribe = ltb→lt _ _ subscribe;
        },
        same (rw (publish, subscribe) at e),
      )
    ]
  ]

  pub mqtt_conn_init-returned :
      mqtt_conn_init calls key name old ≡ ok (rc, t) → is_negative rc ≡ false → TopicsSet
  unfolding mqtt_conn_init
  mqtt_conn_init-returned e good = elim (Bool-cases (ltb (length (hub_host key)) 128)) [
    | inr long ↦ overflown (rw long at e)
    | inl host ↦ elim (Bool-cases (is_negative calls.aiot_mqtt_sign)) [
      | inl unsigned ↦ failed (rw (host, unsigned) at e) good
      | inr signed ↦ elim (Bool-cases (is_negative calls.network_connect)) [
        | inl unlinked ↦ failed (rw (host, signed, unlinked) at e) good
        | inr linked ↦ elim (Bool-cases (eq_int calls.mqtt_connect (pos 0))) [
          | inr refused ↦ failed (rw (host, signed, linked, refused) at e) good
          | inl accepted ↦ connected host (rw (host, signed, linked, accepted) at e)
        ]
      ]
    ]
  ]
