-- ===== src/WifiScan/Attempts.antt =====
-- When `ScanWithWpaCli` of chime/src/webd/wifi_scan.cpp succeeds.
use virtualchime.Base.{
  ℕ, zero, suc, ◌+◌, Bool, true, false, not, ◌&&◌, ◌||◌, [], ◌≡◌, refl, arith, is_empty, Bytes,
  codes,
}
use virtualchime.WifiScan.{
  CommandResult, ScanResult, networks_found, scan_failed, parse_wpa_cli_scan_results, attempts_loop,
  contains_busy_signal, describe_command_failure, scan_with_wpa_cli,
}

-- The attempt's command succeeded and listed a network.
unfoldable pub lists_networks : CommandResult → Bool
lists_networks r = r.success && not (is_empty (parse_wpa_cli_scan_results r.output))

-- One of `left` attempts from the `i`-th on listed a network.
unfoldable pub some_attempt : ℕ → ℕ → (ℕ → CommandResult) → Bool
unfolding lists_networks
some_attempt zero i scan_results = false
some_attempt (suc left) i scan_results =
    let later = some_attempt left (i + 1) scan_results in lists_networks (scan_results i) || later

abbrev pub succeeded : ScanResult → Bool
succeeded (networks_found networks) = true
succeeded (scan_failed error) = false

attempts_loop-is_empty :
    (left i : ℕ) (scan_results : ℕ → CommandResult) (error : Bytes)
    → is_empty (attempts_loop left i scan_results error).0 ≡ not (some_attempt left i scan_results)
unfolding attempts_loop some_attempt lists_networks
attempts_loop-is_empty zero i scan_results error = refl
attempts_loop-is_empty (suc left) i scan_results error =
    let failed = describe_command_failure (codes "wpa_cli scan_results") (scan_results i) in
    let after_success = attempts_loop-is_empty left (i + 1) scan_results error in
    let after_failure = attempts_loop-is_empty left (i + 1) scan_results failed in
    ground (arith, after_success, after_failure)

-- The scan succeeds exactly when the command that triggers it succeeded or was refused as busy, and
-- one of the six attempts to read the results lists a network.
pub scan_with_wpa_cli_succeeds :
    (trigger : CommandResult) (scan_results : ℕ → CommandResult)
    → succeeded (scan_with_wpa_cli trigger scan_results)
      ≡ ((trigger.success || contains_busy_signal trigger.output) && some_attempt 6 0 scan_results)
unfolding scan_with_wpa_cli
scan_with_wpa_cli_succeeds trigger scan_results =
    let empty = attempts_loop-is_empty 6 0 scan_results [] in ground (arith, empty)
