-- ===== src/Connection/Outcomes.antt =====
-- src/mqtt.c, src/wsclient.c: when the connections are there.
use edgebox.Prelude.{
  ℕ, zero, suc, ◌+◌, ◌≤◌, ◌<◌, ◌≡◌, ◌≢◌, ◌↔◌, refl, ap, Bool, true, false, Option, List, [], ◌∷◌,
  map, ◌==◌, if◌then◌else◌, length, arith, Bool-cases, ◌⊎◌, inl, inr, lt→ltb,
}
use edgebox.Prelude.CInt.{ℤ, pos, negsuc, eq_int, eq_int→eq, eq_int_self, is_negative}
use edgebox.Prelude.Text.{Text}
use edgebox.Prelude.Run.{ok}
use edgebox.Memory.{Ptr, null}
use edgebox.Connection.{
  HubCalls, Topics, hub_host, topics_of, topic_size, mqtt_conn_init, wait_websocket, init_websocket,
  lws_client_connect_via_info, lws_service, ws_evloop_run,
}

-- Every call reports success.
abbrev pub AllSucceed : HubCalls → Type 0
AllSucceed calls =
    (is_negative calls.aiot_mqtt_sign ≡ false)
    × (is_negative calls.network_connect ≡ false)
    × (calls.mqtt_connect ≡ pos 0)
    × (calls.mqtt_subscribe ≡ pos 0)

-- The host and the topics fit their arrays.
pub record NamesFit (product_key : Text) (device_name : Option Text) : Type 0 where
  pub host : length (hub_host product_key) < 128
  pub publish : length (topics_of product_key device_name).eb_pub_topic < topic_size
  pub subscribe : length (topics_of product_key device_name).eb_sub_topic < topic_size

-- What `mqtt_conn_init` returns, and what that says.
abbrev Returned : HubCalls → Text → Option Text → Topics → Type 0
Returned calls product_key device_name old =
    (rc : ℤ) × (t : Topics) × (mqtt_conn_init calls product_key device_name old ≡ ok (rc, t))
    × ((rc ≡ pos 0) ⊎ (rc ≡ negsuc 0))
    × (rc ≡ pos 0 ↔ AllSucceed calls)
    × (rc ≡ pos 0 → t ≡ topics_of product_key device_name)

module _ (calls : HubCalls) (product_key : Text) (device_name : Option Text) (old : Topics) where
  -- A failure returns -1.
  Returned-failure :
      (t : Topics)
      → mqtt_conn_init calls product_key device_name old ≡ ok (negsuc 0, t)
      → ¬ AllSucceed calls
      → Returned calls product_key device_name old
  Returned-failure t run failed = (
    negsuc 0,
    t,
    run,
    inr refl,
    ((λ e. ground arith), λ all. absurd (failed all)),
    λ e. ground arith,
  )

  -- Behind the connection the topics are set, and the subscription decides.
  Returned-connected :
      NamesFit product_key device_name
      → is_negative calls.aiot_mqtt_sign ≡ false
      → is_negative calls.network_connect ≡ false
      → eq_int calls.mqtt_connect (pos 0) ≡ true
      → Returned calls product_key device_name old
  unfolding mqtt_conn_init
  Returned-connected v signed linked accepted =
      let host = lt→ltb _ _ v.host in
      let publish = lt→ltb _ _ v.publish in
      let subscribe = lt→ltb _ _ v.subscribe in
      elim (Bool-cases (eq_int calls.mqtt_subscribe (pos 0))) [
        | inl subscribed ↦ (
          pos 0,
          topics_of product_key device_name,
          rw (host, signed, linked, accepted, publish, subscribe, subscribed),
          inl refl,
          ((λ e. (signed, linked, eq_int→eq _ _ accepted, eq_int→eq _ _ subscribed)), λ all. refl),
          λ e. refl,
        )
        | inr unsubscribed ↦
            Returned-failure (topics_of product_key device_name)
              (rw (host, signed, linked, accepted, publish, subscribe, unsubscribed))
              (λ all. cc (all.3, unsubscribed, eq_int_self (pos 0)))
      ]

-- If the names fit, `mqtt_conn_init` returns zero or -1, and it returns zero exactly if every call of the MQTT
-- client and the signature report success; then the topics are those of the device.
pub mqtt_conn_init_iff :
    (calls : HubCalls) (product_key : Text) (device_name : Option Text) (old : Topics)
    → NamesFit product_key device_name
    → (rc : ℤ) × (t : Topics) × (mqtt_conn_init calls product_key device_name old ≡ ok (rc, t))
      × ((rc ≡ pos 0) ⊎ (rc ≡ negsuc 0))
      × (rc ≡ pos 0 ↔ AllSucceed calls)
      × (rc ≡ pos 0 → t ≡ topics_of product_key device_name)
unfolding mqtt_conn_init
mqtt_conn_init_iff calls key name old v =
    let host = lt→ltb _ _ v.host in
    elim (Bool-cases (is_negative calls.aiot_mqtt_sign)) [
      | inl unsigned ↦
          Returned-failure calls key name old old (rw (host, unsigned))
            (λ all. cc (all.0, unsigned))
      | inr signed ↦ elim (Bool-cases (is_negative calls.network_connect)) [
        | inl cut ↦
            Returned-failure calls key name old old (rw (host, signed, cut))
              (λ all. cc (all.1, cut))
        | inr linked ↦ elim (Bool-cases (eq_int calls.mqtt_connect (pos 0))) [
          | inl accepted ↦ Returned-connected calls key name old v signed linked accepted
          | inr refused ↦
              Returned-failure calls key name old old (rw (host, signed, linked, refused))
                (λ all. cc (all.2, refused, eq_int_self (pos 0)))
        ]
      ]
    ]

-- A connection that is made again leaves the topics as they are, whether it succeeds or not.
pub mqtt_conn_init_again :
    (calls : HubCalls) (product_key : Text) (device_name : Option Text)
    → NamesFit product_key device_name
    → (rc : ℤ) × (mqtt_conn_init calls product_key device_name (topics_of product_key device_name)
        ≡ ok (rc, topics_of product_key device_name))
unfolding mqtt_conn_init
mqtt_conn_init_again calls key name v =
    let host = lt→ltb _ _ v.host in
    let publish = lt→ltb _ _ v.publish in
    let subscribe = lt→ltb _ _ v.subscribe in
    elim (Bool-cases (is_negative calls.aiot_mqtt_sign)) [
      | inl unsigned ↦ (negsuc 0, rw (host, unsigned))
      | inr signed ↦ elim (Bool-cases (is_negative calls.network_connect)) [
        | inl cut ↦ (negsuc 0, rw (host, signed, cut))
        | inr linked ↦ elim (Bool-cases (eq_int calls.mqtt_connect (pos 0))) [
          | inl accepted ↦ (
            if eq_int calls.mqtt_subscribe (pos 0) then pos 0 else negsuc 0,
            rw (host, signed, linked, accepted, publish, subscribe),
          )
          | inr refused ↦ (negsuc 0, rw (host, signed, linked, refused))
        ]
      ]
    ]

-- The loop from the counter `cnt` on.
wait_websocket_iff :
    (seen : ℕ → Bool) (left cnt : ℕ)
    → wait_websocket seen left cnt ≡ pos 0
      ↔ ((n : ℕ) × (cnt ≤ n) × (n < cnt + left) × (seen n ≡ true))
unfolding wait_websocket
wait_websocket_iff seen zero cnt = ((λ e. ground arith), λ (n, lo, hi, h). absurd (omega arith))
wait_websocket_iff seen (suc left) cnt = elim (Bool-cases (seen cnt)) [
  | inl now ↦ ((λ e. (cnt, omega arith, omega arith, now)), λ found. rw now)
  | inr not_yet ↦
      let (to, from) = wait_websocket_iff seen left (cnt + 1) in
      rw not_yet (
        (λ e. let (n, lo, hi, h) = to e in (n, omega arith, omega arith, h)),
        λ (n, lo, hi, h).
            let other : n ≢ cnt = λ e. cc (ap seen e, h, not_yet) in
            from (n, omega (arith, other), omega arith, h),
      )
]

wait_websocket_cases :
    (seen : ℕ → Bool) (left cnt : ℕ)
    → (wait_websocket seen left cnt ≡ pos 0) ⊎ (wait_websocket seen left cnt ≡ negsuc 0)
unfolding wait_websocket
wait_websocket_cases seen zero cnt = inr refl
wait_websocket_cases seen (suc left) cnt = elim (Bool-cases (seen cnt)) [
  | inl now ↦ inl (rw now)
  | inr not_yet ↦ rw not_yet (wait_websocket_cases seen left (cnt + 1))
]

-- Zero, or -1.
pub init_websocket_cases :
    (seen : ℕ → Bool) → (init_websocket seen ≡ pos 0) ⊎ (init_websocket seen ≡ negsuc 0)
unfolding init_websocket
init_websocket_cases seen = wait_websocket_cases seen 21 0

-- `init_websocket` returns zero exactly if one of the first 21 tests finds the websocket.
pub init_websocket_iff :
    (seen : ℕ → Bool) → init_websocket seen ≡ pos 0 ↔ ((n : ℕ) × (n ≤ 20) × (seen n ≡ true))
unfolding init_websocket
init_websocket_iff seen =
    let (to, from) = wait_websocket_iff seen 21 0 in
    (
      (λ e. let (n, lo, hi, h) = to e in (n, omega arith, h)),
      λ (n, small, h). from (n, omega arith, omega arith, h),
    )

ws_evloop_run-connected :
    (ws : Ptr) (later : List Ptr)
    → ws ≢ null
    → ws_evloop_run later ws ≡ map (λ _. lws_service) later
unfolding ws_evloop_run
ws_evloop_run-connected ws [] ne = refl
ws_evloop_run-connected ws (c ∷ later) ne =
    let there : (ws == null) ≡ false = ground arith in
    rw (there, ws_evloop_run-connected ws later ne)

-- Once a connection was made, no later round of the loop makes one, whatever it would give.
pub ws_evloop_run_once :
    (connected : Ptr) (later : List Ptr)
    → connected ≢ null
    → ws_evloop_run (connected ∷ later) null
      ≡ lws_client_connect_via_info ∷ lws_service ∷ map (λ _. lws_service) later
unfolding ws_evloop_run
ws_evloop_run_once connected later ne = rw (ws_evloop_run-connected connected later ne)
