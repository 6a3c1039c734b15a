-- ===== src/Service/Startup.antt =====
-- The startup notification in the loop of `ChimeService::Run`.
pub mod Decided
use virtualchime.Base.{
  ℕ, ◌-◌, ◌/◌, Bool, true, false, not, ◌&&◌, List, [], Option, none, some, if◌then◌else◌, leb,
}
use virtualchime.ChimeConfig.{ChimeConfig}
use virtualchime.Service.{Effect, success, failure, play_notification}

-- The local variables of `Run` that are about it.
pub record Startup : Type 0 where
  pub played : Bool
  pub unknown_logged : Bool
  pub unknown_wifi_begin : Option ℕ

-- Times are nanoseconds, as `steady_clock` counts them; this is `duration_cast<seconds>`.
abbrev pub seconds_between : ℕ → ℕ → ℕ
seconds_between now before = (now - before) / 1000000000

abbrev pub startup_notification_timeout_seconds : ℕ
startup_notification_timeout_seconds = 10

abbrev pub startup_unknown_wifi_timeout_seconds : ℕ
startup_unknown_wifi_timeout_seconds = 30

-- The wait is noted once, with its begin.
abbrev pub note_unknown : ℕ → Startup → Startup
note_unknown now s =
    if s.unknown_logged
    then s
    else record s { unknown_logged = true; unknown_wifi_begin = some now }

abbrev pub unknown_wait_over : ℕ → Option ℕ → Bool
unknown_wait_over now none = false
unknown_wait_over now (some begin) =
    leb startup_unknown_wifi_timeout_seconds (seconds_between now begin)

unfoldable pub startup_unknown : ChimeConfig → ℕ → Startup → Startup × List Effect
unfolding play_notification
startup_unknown c now s =
    if unknown_wait_over now (note_unknown now s).unknown_wifi_begin
    then (record (note_unknown now s) { played = true }, play_notification c failure)
    else (note_unknown now s, [])

-- The block under `!startup_notification_played`, behind the refresh of the wifi state, which is
-- given by whether it is known and whether it is connected.
unfoldable pub startup_step :
    ChimeConfig
    → (now startup_begin : ℕ) (wifi_state_known wifi_connected mqtt_connected : Bool) → Startup
    → Startup × List Effect
unfolding play_notification startup_unknown
startup_step c now startup_begin wifi_state_known wifi_connected mqtt_connected s =
    if wifi_connected && mqtt_connected
    then (record s { played = true }, play_notification c success)
    else if not (leb startup_notification_timeout_seconds (seconds_between now startup_begin))
    then (s, [])
    else if not wifi_state_known
    then startup_unknown c now s
    else (record s { played = true; unknown_wifi_begin = none }, play_notification c failure)
