-- ===== src/Uplink/Numbering/Examples.antt =====
-- Three texts from the server, one of which has no fields.
use edgebox.Prelude.{◌≡◌, refl, [], ◌∷◌, List, length}
use edgebox.Prelude.Text.{codes, text_eq, text_case_eq, to_lower, strtol16}
use edgebox.Prelude.Run.{Run, ok}
use edgebox.Json.{CJson}
use edgebox.Json.Sample.{Element}
use edgebox.Report.{Reporter, eb_report_temp_hum}
use edgebox.Uplink.{eb_ws_parse_weather_data, ws_receive_msg}
use edgebox.Uplink.Examples.{config, stack_with, message, room}
use edgebox.Uplink.Numbering.{Arrival, receive_all}
use edgebox.Json.Sample.{reading}

abbrev library : CJson
library = reading (codes "one") (message "0103")

abbrev arrivals : List (Arrival Element)
arrivals =
    record { env = stack_with 0; room = room; json_text = codes "one" }
    ∷ record { env = stack_with 0; room = room; json_text = codes "other" }
    ∷ record { env = stack_with 0; room = room; json_text = codes "one" }
    ∷ []

abbrev fresh : Reporter
fresh = record { eb_pub_topic = codes "topic"; msgid_in_payload = 0; msgid = 0; published = [] }

abbrev reporter_of : Run Reporter → Reporter
reporter_of (ok r) = r
reporter_of _ = fresh

after_three : Reporter
unfolding receive_all ws_receive_msg eb_ws_parse_weather_data text_eq text_case_eq to_lower strtol16
after_three = reporter_of (receive_all library [] config arrivals fresh)

all_received : receive_all library [] config arrivals fresh ≡ ok after_three
unfolding after_three
all_received = refl

two_published : length after_three.published ≡ 2
unfolding after_three eb_report_temp_hum
two_published = refl
