-- ===== src/WifiScan.antt =====
-- The network list of chime/src/webd/wifi_scan.cpp: `ParseWpaCliScanResults`,
-- `DeduplicateStrongest` and `ScanWithWpaCli`. What a command printed and how it ended is given.
pub mod Strongest
pub mod Lines
pub mod Attempts
use virtualchime.Base.{
  ℕ, zero, suc, ◌+◌, Bool, true, false, not, ◌&&◌, ◌||◌, List, [], ◌∷◌, ◌++◌, Option, none, some,
  map, if◌then◌else◌, leb, length, is_empty, take, Bytes, codes, bytes_eq, contains_bytes,
  starts_with, ℤ, pos, negsuc, ltb_ℤ, leb_ℤ, value_or, ◌==◌,
}
use virtualchime.Text.{trim, get_lines, parse_long, to_lower, to_string}

pub record WifiNetwork : Type 0 where
  pub ssid : Bytes
  pub signal_dbm : ℤ
  pub security : Bytes

pub record CommandResult : Type 0 where
  pub success : Bool
  pub timed_out : Bool
  pub exit_code : ℤ
  pub output : Bytes
  pub error : Bytes

pub data ScanResult : Type 0 where
  networks_found : List WifiNetwork → ScanResult
  scan_failed : Bytes → ScanResult

-- `pop_back` of a carriage return.
unfoldable pub drop_cr : Bytes → Bytes
drop_cr [] = []
drop_cr (c ∷ []) = if c == b'\r' then [] else c ∷ []
drop_cr (c ∷ d ∷ cs) = c ∷ drop_cr (d ∷ cs)

-- `SplitLines`.
unfoldable pub split_lines : Bytes → List Bytes
unfolding get_lines drop_cr
split_lines input = map drop_cr (get_lines input)

pub tabs_loop : Bytes → Bytes → List Bytes
tabs_loop current [] = current ∷ []
tabs_loop current (c ∷ cs) =
    if c == b'\t' then current ∷ tabs_loop [] cs else tabs_loop (current ++ c ∷ []) cs

-- `SplitTabs`.
unfoldable pub split_tabs : Bytes → List Bytes
unfolding tabs_loop
split_tabs input = tabs_loop [] input

-- `SecurityFromFlags`.
unfoldable pub security_from_flags : Bytes → Bytes
unfolding contains_bytes
security_from_flags flags =
    if contains_bytes (codes "WPA3") flags
    then codes "WPA3"
    else if contains_bytes (codes "WPA2") flags || contains_bytes (codes "RSN") flags
    then codes "WPA2"
    else if contains_bytes (codes "WPA") flags
    then codes "WPA"
    else if contains_bytes (codes "WEP") flags
    then codes "WEP"
    else codes "OPEN"

-- -1000 where the field is empty or not a number.
abbrev pub signal_of : Bytes → ℤ
signal_of field = if is_empty field then negsuc 999 else value_or (parse_long field) (negsuc 999)

-- The network of the fields of a line.
abbrev pub network_of_fields : List Bytes → Option WifiNetwork
network_of_fields (bssid ∷ frequency ∷ signal ∷ flags ∷ ssid ∷ more) =
    if is_empty ssid
    then none
    else some
        record { ssid = ssid; signal_dbm = signal_of signal; security = security_from_flags flags }
network_of_fields fields = none

unfoldable pub network_of_line : Bytes → Option WifiNetwork
unfolding split_tabs parse_long security_from_flags starts_with
network_of_line line =
    if is_empty line || starts_with (codes "bssid") line
    then none
    else network_of_fields (split_tabs line)

pub networks_of_lines : List Bytes → List WifiNetwork
unfolding network_of_line
networks_of_lines [] = []
networks_of_lines (line ∷ lines) =
    let rest = networks_of_lines lines in
    elim (network_of_line line) [ none ↦ rest | some network ↦ network ∷ rest ]

-- `ParseWpaCliScanResults`.
unfoldable pub parse_wpa_cli_scan_results : Bytes → List WifiNetwork
unfolding networks_of_lines split_lines
parse_wpa_cli_scan_results output = networks_of_lines (split_lines output)

-- The map of `DeduplicateStrongest` after one network: it is put in if its name is new, and in
-- place of a weaker one.
pub put_stronger : WifiNetwork → List WifiNetwork → List WifiNetwork
unfolding bytes_eq
put_stronger network [] = network ∷ []
put_stronger network (old ∷ rest) =
    let later = put_stronger network rest in
    if bytes_eq network.ssid old.ssid
    then (if ltb_ℤ old.signal_dbm network.signal_dbm then network else old) ∷ rest
    else old ∷ later

pub deduplicate_loop : List WifiNetwork → List WifiNetwork → List WifiNetwork
unfolding put_stronger
deduplicate_loop deduped [] = deduped
deduplicate_loop deduped (network ∷ input) =
    deduplicate_loop (if is_empty network.ssid then deduped else put_stronger network deduped) input

pub insert_sorted : WifiNetwork → List WifiNetwork → List WifiNetwork
insert_sorted network [] = network ∷ []
insert_sorted network (first ∷ rest) =
    let later = insert_sorted network rest in
    if ltb_ℤ network.signal_dbm first.signal_dbm then first ∷ later else network ∷ first ∷ rest

-- `std::sort` by falling signal. The order of equally strong networks, which `std::sort` leaves
-- open, is the one of an insertion sort.
pub sort_networks : List WifiNetwork → List WifiNetwork
unfolding insert_sorted
sort_networks [] = []
sort_networks (network ∷ rest) = insert_sorted network (sort_networks rest)

-- `DeduplicateStrongest`.
unfoldable pub deduplicate_strongest : List WifiNetwork → List WifiNetwork
unfolding deduplicate_loop sort_networks
deduplicate_strongest input = sort_networks (deduplicate_loop [] input)

abbrev blank_to_space : ℕ → ℕ
blank_to_space c = if (c == b'\n') || ((c == b'\r') || (c == b'\t')) then b' ' else c

abbrev shortened : ℕ → Bytes → Bytes
shortened max_chars text =
    if leb (length text) max_chars then text else take max_chars text ++ codes "..."

-- `OneLineOutput`.
pub one_line_output : Bytes → ℕ → Bytes
unfolding trim
one_line_output output max_chars = shortened max_chars (trim (map blank_to_space output))

-- `DescribeCommandFailure`.
pub describe_command_failure : Bytes → CommandResult → Bytes
unfolding one_line_output to_string
describe_command_failure command r =
    let how =
      if r.timed_out
      then codes " (timed out)"
      else if leb_ℤ (pos 0) r.exit_code
      then codes " (exit=" ++ (to_string r.exit_code ++ codes ")")
      else [] in
    let output = one_line_output r.output 180 in
    let why =
      if not (is_empty output)
      then codes ": " ++ output
      else if not (is_empty r.error)
      then codes ": " ++ r.error
      else [] in
    command ++ (codes " failed" ++ (how ++ why))

-- `ContainsBusySignal`.
pub contains_busy_signal : Bytes → Bool
unfolding to_lower contains_bytes
contains_busy_signal output = contains_bytes (codes "busy") (to_lower output)

-- The loop over the attempts from the `i`-th on: the networks, and the last error.
pub attempts_loop : ℕ → ℕ → (ℕ → CommandResult) → Bytes → List WifiNetwork × Bytes
unfolding parse_wpa_cli_scan_results describe_command_failure
attempts_loop zero i scan_results last_error = ([], last_error)
attempts_loop (suc left) i scan_results last_error =
    let r = scan_results i in
    let error =
      if r.success then last_error else describe_command_failure (codes "wpa_cli scan_results") r in
    let found = if r.success then parse_wpa_cli_scan_results r.output else [] in
    let later = attempts_loop left (i + 1) scan_results error in
    if is_empty found then later else (found, error)

abbrev scan_attempts : ℕ
scan_attempts = 6

-- `ScanWithWpaCli`: `trigger` is the result of the scan command, `scan_results` those of the
-- attempts to read its results.
unfoldable pub scan_with_wpa_cli : CommandResult → (ℕ → CommandResult) → ScanResult
unfolding attempts_loop contains_busy_signal describe_command_failure deduplicate_strongest
scan_with_wpa_cli trigger scan_results =
    let busy = not trigger.success && contains_busy_signal trigger.output in
    let (networks, last_error) = attempts_loop scan_attempts 0 scan_results [] in
    if not trigger.success && not busy
    then scan_failed (describe_command_failure (codes "wpa_cli scan") trigger)
    else if not (is_empty networks)
    then networks_found (deduplicate_strongest networks)
    else if not (is_empty last_error)
    then scan_failed last_error
    else if busy
    then scan_failed (codes "wpa_cli scan busy and no cached scan results available")
    else scan_failed (codes "wpa_cli returned no scan results")
