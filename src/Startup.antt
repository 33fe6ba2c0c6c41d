-- ===== src/Startup.antt =====
-- src/edgebox.c: the configuration file, the user, and the calls of `main`'s loop. The library
-- that reads the file is not part of the program: its calls are a parameter.
pub mod Nodes
pub mod User
pub mod Main
pub mod Examples
use edgebox.Prelude.{
  ℕ, ◌+◌, ◌≡◌, Bool, true, false, not, Option, none, some, List, [], ◌∷◌, ◌++◌, ◌==◌, ltb, length,
  if◌then◌else◌,
}
use edgebox.Prelude.CInt.{ℤ}
use edgebox.Prelude.Text.{Text, codes, text_case_eq}
use edgebox.Prelude.Run.{Run, ok, exits, ◌>>=◌, ◌>>◌, defined, allocated, deref}
use edgebox.Logger.{LogLevel, debug2, debug1, debug, info, error}
use edgebox.Uplink.{Config}

-- `iniparser_getstring` with the default NULL, and `iniparser_getint` with the default -1.
pub record Ini : Type 0 where
  pub getstring : Text → Option Text
  pub getint : Text → ℤ

-- The globals that `readConfig` sets. The names of the LoRa nodes are in the order of their list.
pub record Settings : Type 0 where
  pub eb_product_key : Text
  pub eb_device_name : Option Text
  pub eb_device_secret : Option Text
  pub lora_list : List Text
  pub ws_url : Option Text
  pub weather : Config
  pub s_log_file : Text
  pub s_log_level : LogLevel
  pub edgebox_username : Option Text

-- A token of `strtok` is not empty.
abbrev pub emit : Text → List Text → List Text
emit [] rest = rest
emit (c ∷ cs) rest = (c ∷ cs) ∷ rest

-- `strtok(text, ",")` and the calls with NULL behind it, where `token` was read already.
unfoldable pub tokens_from : Text → Text → List Text
tokens_from token [] = emit token []
tokens_from token (c ∷ s) =
    let next = tokens_from [] s in
    let longer = tokens_from (token ++ c ∷ []) s in if c == b',' then emit token next else longer

-- The size of `name` in `struct lora_node`.
abbrev pub lora_name_size : ℕ
lora_name_size = 64

-- The loop over the tokens: each node goes to the head of the list. `found` tells which allocations
-- succeed, counted by `n`.
unfoldable pub add_loras : (ℕ → Bool) → ℕ → List Text → List Text → Run (List Text)
add_loras found n [] lora_list = ok lora_list
add_loras found n (p ∷ ps) lora_list = do
  allocated (found n)
  defined (ltb (length p) lora_name_size)
  add_loras found (n + 1) ps (p ∷ lora_list)

-- The size of `s_logFile`.
abbrev log_file_size : ℕ
log_file_size = 258

abbrev is_absolute : Text → Bool
is_absolute [] = false
is_absolute (c ∷ s) = c == b'/'

-- The name of the log file, where `old` stood before.
unfoldable pub log_file : Text → Text → Option Text → Run Text
log_file cwd old none = ok old
log_file cwd old (some name) =
    let path = if is_absolute name then name else cwd ++ b'/' ∷ name in
    defined (ltb (length path) log_file_size) >> ok path

abbrev pub level_names : List (Text × LogLevel)
level_names =
    (codes "DEBUG2", debug2)
    ∷ (codes "DEBUG1", debug1)
    ∷ (codes "DEBUG", debug)
    ∷ (codes "INFO", info)
    ∷ (codes "ERROR", error)
    ∷ []

-- The first level of that name; without one the level stays as it was.
unfoldable pub find_level : Text → LogLevel → List (Text × LogLevel) → LogLevel
find_level name old [] = old
find_level name old ((level_name, level) ∷ levels) =
    if text_case_eq name level_name then level else find_level name old levels

-- `readConfig`. A missing level is compared through NULL: a fault.
unfoldable pub read_config : (ℕ → Bool) → Text → Option Ini → Run Settings
unfolding tokens_from log_file find_level
read_config found cwd none = exits
read_config found cwd (some ini) = elim (ini.getstring (codes "mqtt:edgebox_product_key")) [
  | none ↦ exits
  | some product_key ↦ do
    loras ← elim (ini.getstring (codes "lora:lora_node_list")) [
      | none ↦ ok []
      | some loranodes ↦ add_loras found 0 (tokens_from [] loranodes) []
    ]
    path ← log_file cwd [] (ini.getstring (codes "logging:logfile"))
    level ← deref (ini.getstring (codes "logging:loglevel"))
    ok (record {
      eb_product_key = product_key;
      eb_device_name = ini.getstring (codes "mqtt:edgebox_device_name");
      eb_device_secret = ini.getstring (codes "mqtt:edgebox_device_secret");
      lora_list = loras;
      ws_url = ini.getstring (codes "lora:websocket_url");
      weather = record {
        weather_lorasn = ini.getstring (codes "weather_station:lora_devaddr");
        temp_humi_485_addr = ini.getint (codes "weather_station:temp_humi_addr");
        wind_dir_485_addr = ini.getint (codes "weather_station:wind_dir_addr");
        wind_speed_485_addr = ini.getint (codes "weather_station:wind_speed_addr");
      };
      s_log_file = path;
      s_log_level = find_level level info level_names;
      edgebox_username = ini.getstring (codes "system:user");
    })
]

-- `drop_root_priviledge`: the user's number that the process has afterwards. `getpwnam` is a parameter;
-- whether `setuid` succeeds is not looked at.
unfoldable pub drop_root_priviledge : (Text → Option ℕ) → Bool → Option Text → ℕ → ℕ
drop_root_priviledge getpwnam setuid_ok none uid = uid
drop_root_priviledge getpwnam setuid_ok (some user) uid =
    if not (uid == 0)
    then uid
    else elim (getpwnam user) [ none ↦ uid | some pw_uid ↦ if setuid_ok then pw_uid else uid ]

-- What a round of `main`'s loop and the handler of SIGTERM call.
pub data MainCall : Type 0 where
  mqtt_yield mqtt_disconnect network_disconnect call_mqtt_conn_init main_poll exit_program :
      MainCall

unfoldable pub main_round : Bool → List MainCall
main_round is_connected =
    mqtt_yield
    ∷ ((if is_connected
          then []
          else mqtt_disconnect ∷ network_disconnect ∷ call_mqtt_conn_init ∷ [])
        ++ main_poll ∷ [])

-- `eb_signal_handler`
unfoldable pub eb_signal_handler : List MainCall
eb_signal_handler = mqtt_disconnect ∷ network_disconnect ∷ exit_program ∷ []
