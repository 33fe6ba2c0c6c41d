-- ===== src/StatusThread.antt =====
-- src/statusquery.c: `status_query_thread`. Its first two calls are commented out in the source, so a
-- round waits, and asks the sensor for the direction of the wind.
pub mod Rounds
pub mod Examples
use edgebox.Prelude.{ℕ, Option, List, [], ◌∷◌, ◌++◌, map}
use edgebox.Prelude.CInt.{ℤ}
use edgebox.Prelude.Text.{Text}
use edgebox.Prelude.Run.{Run, ok, ◌>>=◌}
use edgebox.Json.{CJson}
use edgebox.Downlink.{Send, Surroundings, send_weather_info_request}
use edgebox.Uplink.{Config}

pub data ThreadCall : Type 0 where
  poll_wait : ℕ → ThreadCall
  eb_ws_write : Send → ThreadCall

module _ (J : CJson) (config : Config) where
  -- One round of the endless loop.
  unfoldable pub status_query_round : Surroundings → Run (List ThreadCall)
  status_query_round env = do
    sends ← send_weather_info_request J env config.weather_lorasn config.wind_dir_485_addr
    ok (poll_wait 6000 ∷ poll_wait 6000 ∷ (map eb_ws_write sends ++ poll_wait 6000 ∷ []))

  -- The rounds of `status_query_thread`, each with what is there besides the program.
  unfoldable pub status_query_thread : List Surroundings → Run (List ThreadCall)
  status_query_thread [] = ok []
  status_query_thread (env ∷ envs) = do
    calls ← status_query_round env
    later ← status_query_thread envs
    ok (calls ++ later)
