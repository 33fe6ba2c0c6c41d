-- ===== src/Gateway/Examples.antt =====
-- The theorems on the running gateway at a concrete history.
use mathlib.Core.List.{Perm}
use edgebox.Prelude.{
  ◌⊎◌, ◌≤◌, ◌≡◌, refl, true, false, none, some, List, [], ◌∷◌, ◌++◌, map, arith, length,
}
use edgebox.Prelude.Text.{Text, codes}
use edgebox.Hex.{hex2ascii}
use edgebox.Crc.{modbus_crc16}
use edgebox.Modbus.{with_checksum, modbus_write}
use edgebox.Uplink.Numbering.{Numbered}
use edgebox.Report.{MqttMessage}
use edgebox.HubQueue.Drain.{arrive}
use edgebox.WsQueue.{ws_callback, client_writeable}
use edgebox.Memory.{Ptr}
use edgebox.WsQueue.Pushes.{Holds}
use edgebox.WsQueue.Refinement.{write, callback, wrote, called_back}
use edgebox.WsQueue.Lanes.{Lanes, written}
use edgebox.Downlink.{Send, lora_document}
use edgebox.Gateway.{Gateway, begin, handling, Step, received, handle, Reach, here, next, c_string}
use edgebox.Gateway
use edgebox.Gateway.Reports.{reports-Numbered}
use edgebox.Gateway.Progress.{Later, kept}
use edgebox.Gateway.Drained.{gateway_drains}
use edgebox.Gateway.Stored.{stored_texts}
use edgebox.Gateway.Order.{Produced, commands_reach_websocket}
use edgebox.Gateway.Sample.{
  acts_of, arrived_hub, command_fits, config, done_hub, freed_hub, emptied, library, looked_hub,
  message, message_handled, one_reported, open_valve, plenty, queued, room, stack, switches,
  taken_hub,
}

abbrev gateway : Gateway
gateway = record {
  hub = record { hub = freed_hub; arrived = message ∷ []; handled = message ∷ [] };
  session = record {
    queue = emptied;
    log = called_back ∷ wrote true open_valve.text ∷ [];
    sent = open_valve.text ∷ [];
  };
  commands = open_valve ∷ [];
  done = record { send = open_valve; stored = true } ∷ [];
  todo = [];
  reporter = one_reported;
  server_texts = message ∷ [];
}

gateway-Reach : Reach library switches config 16 (codes "topic") gateway
unfolding freed_hub emptied one_reported lora_document hex2ascii modbus_write with_checksum
    modbus_crc16 handling
gateway-Reach =
    next
      (next
        (next
          (next
            (next
              (next
                (next
                  (next (next here Gateway.connects)
                    (received (arrive 7 message arrived_hub (λ e. omega arith) refl refl)))
                  (handle (λ _. true) plenty none looked_hub [] refl refl refl))
                (handle (λ _. true) plenty none taken_hub [] refl refl refl))
              (handle (λ _. true) plenty (some message) done_hub (open_valve ∷ []) refl refl
                message_handled))
            (Gateway.commanded open_valve [] refl
              (write 5 _ queued (λ e. omega arith) refl command_fits refl)))
          (handle (λ _. true) plenty none freed_hub [] refl refl refl))
        (Gateway.writeable
          (callback (acts_of (ws_callback 16 client_writeable queued)) emptied refl)))
      (Gateway.reported stack room message emptied one_reported refl refl)

commands_reach_websocket_example :
    (pending : List Text) × (l : Lanes) × (gateway.hub.arrived ≡ gateway.hub.handled ++ pending)
    × Produced library switches config 16 gateway.hub.handled gateway.commands
    × (gateway.commands ≡ map (λ a. a.send) gateway.done ++ gateway.todo)
    × Holds gateway.session.queue (l.commands ++ l.queries)
    × Perm (l.sent_commands ++ l.commands) (stored_texts gateway.done)
    × Perm gateway.session.sent (l.sent_commands ++ l.sent_queries)
    × (l.sent_queries ++ l.queries ≡ written false gateway.session.log)
commands_reach_websocket_example = commands_reach_websocket library switches config 16 gateway-Reach

reports-Numbered_example :
    (early late : List MqttMessage) × (gateway.reporter.published ≡ early ++ late)
    × Numbered [] 0 early
    × Numbered (codes "topic") (length early) late
    × (((gateway.reporter.eb_pub_topic ≡ []) × (late ≡ []))
        ⊎ (gateway.reporter.eb_pub_topic ≡ codes "topic"))
    × (length gateway.reporter.published ≤ length gateway.server_texts)
reports-Numbered_example = reports-Numbered library switches config 16 (codes "topic") gateway-Reach

-- The message has arrived, and nothing else happened.
abbrev arrived_gateway : Gateway
arrived_gateway = record begin {
  hub = record { hub = arrived_hub; arrived = message ∷ []; handled = [] };
}

arrived_gateway-Reach : Reach library switches config 16 (codes "topic") arrived_gateway
unfolding arrived_hub
arrived_gateway-Reach =
    next here (received (arrive 7 message arrived_hub (λ e. omega arith) refl refl))

gateway_drains_example :
    (v : Gateway) × (made : List Send) × Later library switches config 16
      (codes "topic")
      arrived_gateway
      v
    × (v.hub.arrived ≡ message ∷ [])
    × (v.hub.handled ≡ message ∷ [])
    × (v.todo ≡ [])
    × (v.done ≡ [] ++ map kept ([] ++ made))
    × ((p : Ptr) → v.hub.hub.queue.heap p ≡ none)
    × ((p : Ptr) → v.session.queue.heap p ≡ none)
    × Produced library switches config 16 v.hub.handled (map (λ a. a.send) v.done)
    × Perm v.session.sent (stored_texts v.done ++ written false v.session.log)
gateway_drains_example =
    gateway_drains library switches config 16 (message ∷ []) arrived_gateway-Reach refl
      ((λ _. true, plenty, open_valve ∷ [], message_handled, (command_fits, tt)), tt) tt
