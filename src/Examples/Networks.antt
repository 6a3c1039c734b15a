-- ===== src/Examples/Networks.antt =====
-- Concrete scans for chime/src/webd/wifi_scan.cpp.
use virtualchime.Base.{
  true, false, [], ◌∷◌, ◌≡◌, refl, none, Bytes, codes, negsuc, ℕ, zero, suc, nodup,
}
use virtualchime.WifiScan.{
  WifiNetwork, deduplicate_strongest, parse_wpa_cli_scan_results, CommandResult, networks_found,
  scan_with_wpa_cli,
}
use virtualchime.WifiScan.Strongest.{find_network, strongest, names}
use virtualchime.WifiScan.Strongest.Sorted.{falling, deduplicate_strongest_lem}
use virtualchime.Base.{some, ◌&&◌, ◌||◌, starts_with}
use virtualchime.Text.{join}
use virtualchime.WifiScan.{network_of_line, signal_of, security_from_flags, contains_busy_signal}
use virtualchime.WifiScan.Lines.{network_of_line-join}
use virtualchime.WifiScan.Attempts.{succeeded, some_attempt, scan_with_wpa_cli_succeeds}

abbrev home_far : WifiNetwork
home_far = record { ssid = codes "home"; signal_dbm = negsuc 79; security = codes "WPA2" }

abbrev home_near : WifiNetwork
home_near = record { ssid = codes "home"; signal_dbm = negsuc 39; security = codes "WPA3" }

abbrev cafe : WifiNetwork
cafe = record { ssid = codes "cafe"; signal_dbm = negsuc 59; security = codes "OPEN" }

abbrev scanned : Bytes
scanned =
    codes
      "bssid / frequency / signal level / flags / ssid\r\naa\t2412\t-80\t[RSN]\thome\nbb\t2412\t-60\t[ESS]\tcafe\ncc\t5180\t-40\t[WPA3]\thome\n"

parsed_scan : parse_wpa_cli_scan_results scanned ≡ home_far ∷ cafe ∷ home_near ∷ []
unfolding parse_wpa_cli_scan_results
parsed_scan = refl

deduplicated : deduplicate_strongest (home_far ∷ cafe ∷ home_near ∷ []) ≡ home_near ∷ cafe ∷ []
unfolding deduplicate_strongest
deduplicated = refl

-- The command was busy, and its old results are there at the third attempt.
abbrev busy : CommandResult
busy = record {
  success = false;
  timed_out = false;
  exit_code = negsuc 0;
  output = codes "FAIL-BUSY\n";
  error = [];
}

abbrev at_third : ℕ → CommandResult
at_third (suc (suc zero)) = record {
  success = true;
  timed_out = false;
  exit_code = negsuc 0;
  output = scanned;
  error = [];
}
at_third i = busy

scanned_at_third : scan_with_wpa_cli busy at_third ≡ networks_found (home_near ∷ cafe ∷ [])
unfolding scan_with_wpa_cli
scanned_at_third = refl

deduplicate_strongest_lem_example :
    (nodup (names (deduplicate_strongest (home_far ∷ cafe ∷ home_near ∷ []))) ≡ true)
    × ((falling (deduplicate_strongest (home_far ∷ cafe ∷ home_near ∷ [])) ≡ true)
        × (find_network (codes "home") (deduplicate_strongest (home_far ∷ cafe ∷ home_near ∷ []))
            ≡ strongest (codes "home") none (home_far ∷ cafe ∷ home_near ∷ [])))
deduplicate_strongest_lem_example =
    deduplicate_strongest_lem (home_far ∷ cafe ∷ home_near ∷ []) (codes "home") refl

home_line-heading :
    starts_with (codes "bssid") (
      join
        (b'\t' ∷ [])
        (codes "aa" ∷ codes "2412" ∷ codes "-80" ∷ codes "[RSN]" ∷ codes "home" ∷ []))
    ≡ false
unfolding starts_with
home_line-heading = refl

network_of_line-join_example :
    network_of_line (
      join
        (b'\t' ∷ [])
        (codes "aa" ∷ codes "2412" ∷ codes "-80" ∷ codes "[RSN]" ∷ codes "home" ∷ []))
    ≡ some record {
      ssid = codes "home";
      signal_dbm = signal_of (codes "-80");
      security = security_from_flags (codes "[RSN]");
    }
network_of_line-join_example =
    network_of_line-join (codes "aa") (codes "2412") (codes "-80") (codes "[RSN]") (codes "home")
      refl refl home_line-heading

scan_with_wpa_cli_succeeds_example :
    succeeded (scan_with_wpa_cli busy at_third)
    ≡ ((busy.success || contains_busy_signal busy.output) && some_attempt 6 0 at_third)
scan_with_wpa_cli_succeeds_example = scan_with_wpa_cli_succeeds busy at_third
