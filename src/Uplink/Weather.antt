-- ===== src/Uplink/Weather.antt =====
-- src/wsclient.c: the replies of the sensors of the weather station. A reply holds the address, the
-- function code, the number of bytes, the words that were read, and what follows, its checksum.
use edgebox.Prelude.{
  ℕ, ◌+◌, ◌*◌, ◌%◌, ◌≤◌, ◌<◌, ◌≡◌, refl, true, false, none, some, List, [], ◌∷◌, ◌++◌, take, length,
  get_elem?, leb, arith,
}
use edgebox.Prelude.CInt.{pos, eq_int, eq_int_self, s16}
use edgebox.Prelude.Text.{Text, strtol16, hex_digit}
use edgebox.Prelude.Run.{ok, fault}
use edgebox.Hex.{hex2ascii}
use edgebox.Report.{Reporter, dirs, eb_report_temp_hum, eb_report_wind_dir, eb_report_wind_speed}
use edgebox.Uplink.{Config, Stack, dir_text, field4, eb_ws_parse_weather_data}
use edgebox.Uplink.Fields.{
  strtol16-one_byte, strtol16-two_bytes, strtol16-junk_digit, strtol16-junk_other, hex_digit-lt,
}

-- The text of a reply with one word, and with two.
abbrev pub word_reply : ℕ → ℕ → ℕ → ℕ → ℕ → List ℕ → Text
word_reply addr f n h l rest = hex2ascii (addr ∷ f ∷ n ∷ h ∷ l ∷ rest)

abbrev pub words_reply : ℕ → ℕ → ℕ → ℕ → ℕ → ℕ → ℕ → List ℕ → Text
words_reply addr f n h l h' l' rest = hex2ascii (addr ∷ f ∷ n ∷ h ∷ l ∷ h' ∷ l' ∷ rest)

-- Where the code looks for the words.
has_address : (addr : ℕ) (rest : List ℕ) → leb 1 (length (hex2ascii (addr ∷ rest))) ≡ true
unfolding hex2ascii
has_address addr rest = ground arith

first_word :
    (addr f n h l : ℕ) (rest : List ℕ)
    → field4 6 (word_reply addr f n h l rest) ≡ ok (hex2ascii (h ∷ l ∷ []))
unfolding field4 hex2ascii
first_word addr f n h l rest =
    let inside : leb 6 (length (word_reply addr f n h l rest)) ≡ true = ground arith in rw inside

second_word :
    (addr f n h l h' l' : ℕ) (rest : List ℕ)
    → field4 10 (words_reply addr f n h l h' l' rest) ≡ ok (hex2ascii (h' ∷ l' ∷ []))
unfolding field4 hex2ascii
second_word addr f n h l h' l' rest =
    let inside : leb 10 (length (words_reply addr f n h l h' l' rest)) ≡ true = ground arith in
    rw inside

address_read :
    (addr : ℕ) (rest : List ℕ) → addr < 256 → strtol16 (take 2 (hex2ascii (addr ∷ rest))) ≡ pos addr
unfolding hex2ascii
address_read addr rest h = strtol16-one_byte addr h

dir_read :
    (env : Stack) (h l : ℕ)
    → dir_text env (hex2ascii (h ∷ l ∷ [])) ≡ hex2ascii (h ∷ l ∷ []) ++ env.dir_junk ∷ []
unfolding hex2ascii
dir_read env h l = refl

-- The reply of the sensor at the configured address for temperature and humidity, made of bytes, is
-- reported with both of its words: the second one as a temperature with its sign, the first one as a
-- humidity without.
pub temp_hum_parsed :
    (config : Config) (env : Stack) (addr f n h l h' l' : ℕ) (rest : List ℕ) (r : Reporter)
    → addr < 256
    → h < 256
    → l < 256
    → h' < 256
    → l' < 256
    → config.temp_humi_485_addr ≡ pos addr
    → eb_ws_parse_weather_data config env (words_reply addr f n h l h' l' rest) r
      ≡ ok (eb_report_temp_hum (s16 (h' * 256 + l')) (h * 256 + l) r)
unfolding eb_ws_parse_weather_data
temp_hum_parsed config env addr f n h l h' l' rest r ha hh hl hh' hl' own =
    let address = address_read addr (f ∷ n ∷ h ∷ l ∷ h' ∷ l' ∷ rest) ha in
    let hum = strtol16-two_bytes h l hh hl in
    let temp = strtol16-two_bytes h' l' hh' hl' in
    let hum_fits : (h * 256 + l) % 65536 ≡ h * 256 + l = omega arith in
    let temp_fits : (h' * 256 + l') % 65536 ≡ h' * 256 + l' = omega arith in
    rw (
      has_address addr (f ∷ n ∷ h ∷ l ∷ h' ∷ l' ∷ rest),
      address,
      own,
      eq_int_self (pos addr),
      first_word addr f n h l (h' ∷ l' ∷ rest),
      second_word addr f n h l h' l' rest,
      hum,
      temp,
      hum_fits,
      temp_fits,
    )

-- The reply of the sensor for the speed of the wind, made of bytes, is reported with its word, if its
-- address is that of no other sensor.
pub wind_speed_parsed :
    (config : Config) (env : Stack) (addr f n h l : ℕ) (rest : List ℕ) (r : Reporter)
    → addr < 256
    → h < 256
    → l < 256
    → eq_int (pos addr) config.temp_humi_485_addr ≡ false
    → eq_int (pos addr) config.wind_dir_485_addr ≡ false
    → config.wind_speed_485_addr ≡ pos addr
    → eb_ws_parse_weather_data config env (word_reply addr f n h l rest) r
      ≡ ok (eb_report_wind_speed (h * 256 + l) r)
unfolding eb_ws_parse_weather_data
wind_speed_parsed config env addr f n h l rest r ha hh hl not_temp not_dir own =
    let address = address_read addr (f ∷ n ∷ h ∷ l ∷ rest) ha in
    let speed = strtol16-two_bytes h l hh hl in
    let fits : (h * 256 + l) % 65536 ≡ h * 256 + l = omega arith in
    rw (
      has_address addr (f ∷ n ∷ h ∷ l ∷ rest),
      address,
      not_temp,
      not_dir,
      own,
      eq_int_self (pos addr),
      first_word addr f n h l rest,
      speed,
      fits,
    )

-- There are eight names.
no_direction : (n : ℕ) → 8 ≤ n → get_elem? dirs n ≡ none
no_direction n h = ground arith

pub eb_report_wind_dir-fault : (n : ℕ) (r : Reporter) → 8 ≤ n → eb_report_wind_dir n r ≡ fault
unfolding eb_report_wind_dir
eb_report_wind_dir-fault n r h = rw (no_direction n h)

-- For the directions 1 to 7 the reply of the sensor is reported right if the last byte of the array
-- `dir`, which the code never writes, is no hexadecimal digit; if it is one, the code reads outside
-- the table of the names. The byte behind the array may be written, and the address is not that of
-- the sensor for temperature and humidity.
pub wind_dir_by_junk :
    (config : Config) (env : Stack) (addr f n l : ℕ) (rest : List ℕ) (r : Reporter)
    → addr < 256
    → 0 < l
    → l < 8
    → eq_int (pos addr) config.temp_humi_485_addr ≡ false
    → config.wind_dir_485_addr ≡ pos addr
    → env.dir_slack ≡ true
    → (hex_digit env.dir_junk ≡ none
        → eb_ws_parse_weather_data config env (word_reply addr f n 0 l rest) r
          ≡ eb_report_wind_dir l r)
      × ((d : ℕ)
          → hex_digit env.dir_junk ≡ some d
          → eb_ws_parse_weather_data config env (word_reply addr f n 0 l rest) r ≡ fault)
unfolding eb_ws_parse_weather_data
wind_dir_by_junk config env addr f n l rest r ha hl hl' not_temp own slack =
    let address = address_read addr (f ∷ n ∷ 0 ∷ l ∷ rest) ha in
    (
      (λ other.
          let dir = strtol16-junk_other 0 l env.dir_junk (omega arith) (omega arith) other in
          let fits : (0 * 256 + l) % 65536 ≡ l = omega arith in
          rw (
            has_address addr (f ∷ n ∷ 0 ∷ l ∷ rest),
            address,
            not_temp,
            own,
            eq_int_self (pos addr),
            first_word addr f n 0 l rest,
            slack,
            dir_read env 0 l,
            dir,
            fits,
          )),
      (λ d digit.
          let small = hex_digit-lt env.dir_junk d digit in
          let dir =
            strtol16-junk_digit 0 l env.dir_junk d (omega arith) (omega arith) digit small in
          let fits : ((0 * 256 + l) * 16 + d) % 65536 ≡ l * 16 + d = omega arith in
          rw
            (
              has_address addr (f ∷ n ∷ 0 ∷ l ∷ rest),
              address,
              not_temp,
              own,
              eq_int_self (pos addr),
              first_word addr f n 0 l rest,
              slack,
              dir_read env 0 l,
              dir,
              fits,
            )
            (eb_report_wind_dir-fault (l * 16 + d) r (omega arith))),
    )
