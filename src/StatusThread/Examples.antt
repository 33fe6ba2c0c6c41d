-- ===== src/StatusThread/Examples.antt =====
-- Two rounds of the thread.
use edgebox.Prelude.{◌<◌, ◌≡◌, refl, true, none, some, List, [], ◌∷◌, map, length, arith}
use edgebox.Prelude.CInt.{pos}
use edgebox.Prelude.Text.{codes}
use edgebox.Prelude.Run.{ok}
use edgebox.Json.{CJson}
use edgebox.Json.Sample.{object, nil, reading}
use edgebox.Hex.{hex2ascii}
use edgebox.Crc.{modbus_crc16}
use edgebox.Modbus.{with_checksum, modbus_weather}
use edgebox.Downlink.{Surroundings, lora_document}
use edgebox.Uplink.{Config}
use edgebox.StatusThread.{ThreadCall, status_query_thread}
use edgebox.StatusThread.Rounds.{writes, wind_dir_request, status_query_thread_asks}

abbrev library : CJson
library = reading [] (object none nil)

abbrev config : Config
config = record {
  weather_lorasn = some (codes "7076");
  temp_humi_485_addr = pos 1;
  wind_dir_485_addr = pos 2;
  wind_speed_485_addr = pos 3;
}

abbrev plenty : Surroundings
plenty = record { found = λ _. true; junk = λ _. [] }

request_fits : length (wind_dir_request library config (codes "7076")).text < 1024
unfolding with_checksum modbus_weather hex2ascii lora_document modbus_crc16
request_fits = omega arith

status_query_thread_asks_example :
    (calls : List ThreadCall) × (status_query_thread library config (plenty ∷ plenty ∷ [])
      ≡ ok calls)
    × (writes calls
        ≡ map (λ _. wind_dir_request library config (codes "7076")) (plenty ∷ plenty ∷ []))
status_query_thread_asks_example =
    status_query_thread_asks library config (plenty ∷ plenty ∷ []) (codes "7076") refl
      ((λ i. refl), ((λ i. refl), tt)) request_fits
