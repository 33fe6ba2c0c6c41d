-- ===== src/Startup/Examples.antt =====
-- A concrete configuration file.
use Prim.Native.String.{String}
use mathlib.Core.List.{reverse_aux}
use edgebox.Prelude.{ℕ, ◌≢◌, ◌≡◌, ◌↔◌, refl, true, none, some, Option, List, [], ◌∷◌, if◌then◌else◌}
use edgebox.Prelude.CInt.{pos}
use edgebox.Prelude.Text.{Text, codes, text_eq, to_lower, text_case_eq}
use edgebox.Prelude.Run.{Run, ok}
use edgebox.Logger.{info, debug}
use edgebox.Startup.{
  Ini, Settings, read_config, add_loras, tokens_from, log_file, find_level, drop_root_priviledge,
}
use edgebox.Startup.User.{Changes, drop_root_priviledge_iff}
use edgebox.Startup.Nodes.{AllNames, AllFit, joined, without_commas, read_config-lora_list}

abbrev entry : String → String → (Text → Option Text) → Text → Option Text
entry key value rest other = if text_eq other (codes key) then some (codes value) else rest other

abbrev pub ini : Ini
ini = record {
  getstring = entry "mqtt:edgebox_product_key" "key" (
      entry "lora:lora_node_list" ",a1,,b2" (
        entry "logging:logfile" "edgebox.log" (
          entry "logging:loglevel" "debug"
            (entry "weather_station:lora_devaddr" "7076E841" (λ _. none)))));
  getint = λ _. pos 1;
}

abbrev nothing : Settings
nothing = record {
  eb_product_key = [];
  eb_device_name = none;
  eb_device_secret = none;
  lora_list = [];
  ws_url = none;
  weather = record {
    weather_lorasn = none;
    temp_humi_485_addr = pos 0;
    wind_dir_485_addr = pos 0;
    wind_speed_485_addr = pos 0;
  };
  s_log_file = [];
  s_log_level = info;
  edgebox_username = none;
}

abbrev settings_of : Run Settings → Settings
settings_of (ok s) = s
settings_of _ = nothing

unfoldable pub settings : Settings
unfolding read_config text_eq
settings = settings_of (read_config (λ _. true) (codes "/root") (some ini))

pub configured : read_config (λ _. true) (codes "/root") (some ini) ≡ ok settings
unfolding settings add_loras tokens_from log_file
configured = refl

listed : ini.getstring (codes "lora:lora_node_list") ≡ some (codes ",a1,,b2")
unfolding text_eq
listed = refl

two_nodes_read :
    (names : List Text) × (settings.lora_list ≡ reverse_aux names [])
    × AllNames names
    × AllFit names
    × (joined names ≡ without_commas (codes ",a1,,b2"))
two_nodes_read =
    read_config-lora_list (λ _. true) (codes "/root") ini (codes ",a1,,b2") settings listed
      configured

-- The two nodes, the level in any case of letters, and the path.
two_nodes : settings.lora_list ≡ codes "b2" ∷ codes "a1" ∷ []
unfolding settings add_loras tokens_from log_file
two_nodes = refl

debug_level : settings.s_log_level ≡ debug
unfolding settings add_loras tokens_from log_file find_level text_case_eq to_lower
debug_level = refl

-- Root changes to the user 1000.
drop_root_priviledge_iff_example :
    (◌≢◌ {A = ℕ} 0 0 → drop_root_priviledge (λ _. some 1000) true (some (codes "edgebox")) 0 ≡ 0)
    × (drop_root_priviledge (λ _. some 1000) true (some (codes "edgebox")) 0 ≢ 0
        ↔ Changes (λ _. some 1000) true (some (codes "edgebox")))
drop_root_priviledge_iff_example =
    drop_root_priviledge_iff (λ _. some 1000) true (some (codes "edgebox")) 0
