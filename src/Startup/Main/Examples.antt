-- ===== src/Startup/Main/Examples.antt =====
-- src/edgebox.c: a start that succeeds, and three rounds of a loop.
use edgebox.Prelude.{◌≡◌, ◌⊎◌, refl, true, false, some, none, List, [], ◌∷◌, ◌==◌, arith}
use edgebox.Prelude.CInt.{pos, negsuc}
use edgebox.Prelude.Text.{codes}
use edgebox.Prelude.Run.{Run, ok}
use edgebox.Logger.{Flog, logging_init}
use edgebox.Switches.Examples.{library, roomy, switches_json, both, read_switches-both}
use edgebox.Connection.{HubCalls}
use edgebox.Connection.Outcomes.{NamesFit}
use edgebox.Startup.{add_loras, tokens_from, log_file}
use edgebox.Startup.Examples.{ini, settings, configured}
use edgebox.Startup.Main.{World, returns, loops, Round, closed_log, main_start}
use edgebox.Startup.Main.Reached.{AllStarted, started, main_start_loops_iff}

abbrev good_hub : HubCalls
good_hub = record {
  aiot_mqtt_sign = pos 0;
  network_connect = pos 0;
  mqtt_connect = pos 0;
  mqtt_subscribe = pos 0;
}

abbrev no_hub : HubCalls
no_hub = record good_hub { network_connect = negsuc 0 }

-- The websocket is there at the third test.
abbrev pub world : World
world = record {
  node_found = λ _. true;
  cwd = codes "/root";
  edgebox_ini = some ini;
  getpwnam = λ _. none;
  setuid_ok = true;
  uid = 0;
  log_calls = record { opens = true; removes = true; renames = true };
  disk = λ _. none;
  memory = roomy;
  switches_json = switches_json;
  edgebox_ws = λ n. n == 2;
  handler_created = pos 0;
  hub_calls = good_hub;
  query_created = pos 0;
}

abbrev flog_of : Run Flog → Flog
flog_of (ok s) = s
flog_of _ = closed_log (λ _. none)

pub flog : Flog
unfolding logging_init settings add_loras tokens_from log_file
flog = flog_of (logging_init world.log_calls settings.s_log_file (closed_log world.disk))

pub opened : logging_init world.log_calls settings.s_log_file (closed_log world.disk) ≡ ok flog
unfolding flog
opened = refl

pub names_fit : NamesFit settings.eb_product_key settings.eb_device_name
unfolding settings add_loras tokens_from log_file
names_fit = record { host = omega arith; publish = omega arith; subscribe = omega arith }

main_start_loops_iff_example :
    ((main_start library world ≡ ok (loops (started world settings flog both))) × AllStarted world)
    ⊎ ((main_start library world ≡ ok (returns (negsuc 0))) × (¬ AllStarted world))
main_start_loops_iff_example =
    main_start_loops_iff library world settings flog both configured opened read_switches-both
      names_fit

abbrev pub rounds : List Round
rounds =
    record { is_connected = true; hub_calls = good_hub }
    ∷ record { is_connected = false; hub_calls = no_hub }
    ∷ record { is_connected = false; hub_calls = good_hub }
    ∷ []
