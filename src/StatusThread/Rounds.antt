-- ===== src/StatusThread/Rounds.antt =====
-- src/statusquery.c: what the thread asks for.
use edgebox.Prelude.{◌<◌, ◌≡◌, refl, ap, false, some, List, [], ◌∷◌, ◌++◌, map, length}
use edgebox.Prelude.Text.{Text}
use edgebox.Prelude.Run.{ok}
use edgebox.Json.{CJson}
use edgebox.Modbus.{modbus_weather}
use edgebox.Downlink.{Send, Surroundings, json_text_size, send_weather_info_request}
use edgebox.Downlink.Documents.{Found, frame_text, construct_json_text2lora-ok}
use edgebox.Uplink.{Config}
use edgebox.StatusThread.{
  ThreadCall, poll_wait, eb_ws_write, status_query_round, status_query_thread,
}

-- The calls of `eb_ws_write` among the calls.
unfoldable pub writes : List ThreadCall → List Send
writes [] = []
writes (poll_wait n ∷ calls) = writes calls
writes (eb_ws_write s ∷ calls) = s ∷ writes calls

-- Memory in every round.
abbrev pub AllFound : List Surroundings → Type 0
AllFound [] = Unit {0}
AllFound (env ∷ envs) = Found env.found × AllFound envs

module _ (J : CJson) (config : Config) where
  -- The request to the sensor for the direction of the wind.
  abbrev pub wind_dir_request : Text → Send
  wind_dir_request lorasn = record {
    text = frame_text J (modbus_weather config.wind_dir_485_addr) lorasn;
    priority = false;
  }

  round-ok :
      (env : Surroundings) (lorasn : Text)
      → config.weather_lorasn ≡ some lorasn
      → Found env.found
      → length (wind_dir_request lorasn).text < json_text_size
      → status_query_round J config env
        ≡ ok (
            poll_wait 6000
            ∷ poll_wait 6000
            ∷ eb_ws_write (wind_dir_request lorasn)
            ∷ poll_wait 6000
            ∷ [])
  unfolding status_query_round send_weather_info_request
  round-ok env lorasn station found short = rw (
    station,
    construct_json_text2lora-ok J env (modbus_weather config.wind_dir_485_addr) lorasn (env.junk 0)
        found short,
  )

  -- With memory and room, and a weather station configured, the thread writes one request in each round:
  -- that to the sensor for the direction of the wind. It asks for no switch and no other sensor.
  pub status_query_thread_asks :
      (envs : List Surroundings) (lorasn : Text)
      → config.weather_lorasn ≡ some lorasn
      → AllFound envs
      → length (wind_dir_request lorasn).text < json_text_size
      → (calls : List ThreadCall) × (status_query_thread J config envs ≡ ok calls)
        × (writes calls ≡ map (λ _. wind_dir_request lorasn) envs)
  unfolding status_query_thread writes
  status_query_thread_asks [] lorasn station found short = ([], refl, refl)
  status_query_thread_asks (env ∷ envs) lorasn station found short =
      let (later, run, asks) = status_query_thread_asks envs lorasn station found.1 short in
      let first : List ThreadCall =
        poll_wait 6000
        ∷ poll_wait 6000
        ∷ eb_ws_write (wind_dir_request lorasn)
        ∷ poll_wait 6000
        ∷ [] in
      (
        first ++ later,
        rw (round-ok env lorasn station found.0 short, run),
        ap (λ ss. wind_dir_request lorasn ∷ ss) asks,
      )
