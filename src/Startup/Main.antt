-- ===== src/Startup/Main.antt =====
-- src/edgebox.c: `main`, from the reading of the files to its loop, with the loop's rounds.
pub mod Reached
pub mod Examples
use edgebox.Prelude.{
  ℕ, ◌≡◌, Bool, true, false, not, Option, none, some, List, [], ◌∷◌, ◌++◌, if◌then◌else◌,
}
use edgebox.Prelude.CInt.{ℤ, pos, negsuc, eq_int, is_negative}
use edgebox.Prelude.Text.{Text}
use edgebox.Prelude.Run.{Run, ok, ◌>>=◌}
use edgebox.Json.{CJson}
use edgebox.Logger.{Outcomes, Disk, Flog, logging_init}
use edgebox.Switches.{Switches, Memory, SwitchesFile, read_switches}
use edgebox.Connection.{HubCalls, Topics, mqtt_conn_init, init_websocket}
use edgebox.Startup.{Ini, Settings, MainCall, main_round, read_config, drop_root_priviledge}

-- What the calls of `main` meet: memory for the nodes, the directory, the configuration, the users, the
-- disk, the file of the switches, the websocket at each test, what `pthread_create` returns for both
-- threads, and the calls of the connection to the hub.
pub record World : Type 0 where
  pub node_found : ℕ → Bool
  pub cwd : Text
  pub edgebox_ini : Option Ini
  pub getpwnam : Text → Option ℕ
  pub setuid_ok : Bool
  pub uid : ℕ
  pub log_calls : Outcomes
  pub disk : Disk
  pub memory : Memory
  pub switches_json : SwitchesFile
  pub edgebox_ws : ℕ → Bool
  pub handler_created : ℤ
  pub hub_calls : HubCalls
  pub query_created : ℤ

-- The globals of a gateway that has come to the loop, and the user that it runs as.
pub record Running : Type 0 where
  pub settings : Settings
  pub uid : ℕ
  pub flog : Flog
  pub switches : Switches
  pub topics : Topics

-- `main` returns, or comes to its loop.
pub data MainEnd : Type 0 where
  returns : ℤ → MainEnd
  loops : Running → MainEnd

-- The globals as the program starts.
abbrev pub closed_log : Disk → Flog
closed_log disk = record {
  initialized = false;
  output = false;
  filename = [];
  max_file_size = 0;
  max_backup_files = 0;
  current_file_size = 0;
  disk = disk;
}

abbrev pub no_switches : Switches
no_switches = record { switch_list = []; plc_list = [] }

abbrev pub no_topics : Topics
no_topics = record { eb_pub_topic = []; eb_sub_topic = [] }

-- Behind the reading of the files.
unfoldable pub connect_all : World → Settings → Flog → Switches → Run MainEnd
connect_all w settings flog switches =
    if is_negative (init_websocket w.edgebox_ws)
    then ok (returns (negsuc 0))
    else if not (eq_int w.handler_created (pos 0))
    then ok (returns (negsuc 0))
    else (do
      (rc, topics) ←
          mqtt_conn_init w.hub_calls settings.eb_product_key settings.eb_device_name no_topics
      if is_negative rc
          then ok (returns (negsuc 0))
          else if not (eq_int w.query_created (pos 0))
          then ok (returns (negsuc 0))
          else ok (
              loops (record {
                settings = settings;
                uid = drop_root_priviledge w.getpwnam w.setuid_ok settings.edgebox_username w.uid;
                flog = flog;
                switches = switches;
                topics = topics;
              })))

-- `main` up to its loop.
unfoldable pub main_start : CJson → World → Run MainEnd
unfolding connect_all
main_start J w = do
  settings ← read_config w.node_found w.cwd w.edgebox_ini
  flog ← logging_init w.log_calls settings.s_log_file (closed_log w.disk)
  switches ← read_switches J w.memory w.switches_json no_switches
  connect_all w settings flog switches

-- What a round of the loop meets: whether the client is connected, and the calls of a new connection.
pub record Round : Type 0 where
  pub is_connected : Bool
  pub hub_calls : HubCalls

-- What a round does to the topics. What `mqtt_conn_init` returns is not looked at.
unfoldable pub reconnect : Round → Running → Run Running
reconnect round r = if round.is_connected then ok r else (do
  (rc, topics) ←
      mqtt_conn_init round.hub_calls r.settings.eb_product_key r.settings.eb_device_name r.topics
  ok (record r { topics = topics }))

-- The rounds of the loop: the calls, and the gateway.
unfoldable pub main_loop : List Round → Running → Run (List MainCall × Running)
unfolding reconnect main_round
main_loop [] r = ok ([], r)
main_loop (round ∷ rounds) r = do
  r' ← reconnect round r
  (calls, t) ← main_loop rounds r'
  ok (main_round round.is_connected ++ calls, t)
