-- ===== src/Service/Rounds.antt =====
-- The loop of `ChimeService::Run`.
pub mod Notify
pub mod Deadline
pub mod Success
use virtualchime.Base.{
  ℕ, Bool, true, false, not, ◌&&◌, ◌||◌, List, [], ◌∷◌, ◌++◌, Option, none, some, if◌then◌else◌,
  leb, is_some, Bytes, codes, ℤ, pos, negsuc, leb_ℤ, ltb_ℤ,
}
use virtualchime.ChimeConfig.{ChimeConfig}
use virtualchime.Observed
use virtualchime.Observed.{TopicFiles}
use virtualchime.Service.{
  WifiState, wifi_state_is_connected, eq_ℤ, ServiceState, Effect, publish, reconnect, disconnect,
  Callback, handle_all, fetch_add,
}
use virtualchime.Service.Startup.{Startup, startup_step, seconds_between}

-- What one round meets: the callbacks and the result of the client's loop, whether the signal
-- handler stops the service behind it, the clocks, the wifi reading, and the other results.
pub record Round : Type 0 where
  pub callbacks : List Callback
  pub loop_rc : ℤ
  pub stopped : Bool
  pub now : ℕ
  pub publish_ok : Bool
  pub wifi_reading : Option WifiState
  pub clock_sane : Bool

-- The members and the local variables of `Run`.
pub record RunState : Type 0 where
  pub service : ServiceState
  pub last_heartbeat : ℕ
  pub last_health : ℕ
  pub last_wifi_check : ℕ
  pub last_wifi_state : Option WifiState
  pub startup_begin : ℕ
  pub startup : Startup

abbrev due : ℤ → ℕ → ℕ → Bool
due interval now last = ltb_ℤ (pos 0) interval && leb_ℤ interval (pos (seconds_between now last))

-- The reconnect behind a failed loop.
pub reconnect_step : Round → RunState → RunState × List Effect
unfolding eq_ℤ
reconnect_step r s =
    let service = s.service in
    let counted : ServiceState = record service {
      loop_errors = fetch_add service.loop_errors;
      reconnect_attempts = fetch_add service.reconnect_attempts;
    } in
    if eq_ℤ r.loop_rc (pos 0) then (s, []) else (record s { service = counted }, reconnect ∷ [])

pub heartbeat_step : ChimeConfig → Round → RunState → RunState × List Effect
heartbeat_step c r s =
    let service = s.service in
    let counted : ServiceState = record service {
      heartbeats_sent = fetch_add service.heartbeats_sent;
    } in
    let payload = if service.mqtt_connected then codes "alive" else codes "degraded" in
    if due c.heartbeat_interval r.now s.last_heartbeat
    then (
      record s { last_heartbeat = r.now; service = if r.publish_ok then counted else service },
      publish c.heartbeat_topic payload ∷ [],
    )
    else (s, [])

-- The periodic check of the wifi state, and the one for the startup notification: both put the
-- reading in place of the last state.
pub wifi_step : ChimeConfig → Round → RunState → RunState
wifi_step c r s =
    let checked : RunState = record s {
      last_wifi_state = r.wifi_reading;
      last_wifi_check = r.now;
    } in
    if due c.wifi_check_interval r.now s.last_wifi_check
    then checked
    else if not s.startup.played
    then record s { last_wifi_state = r.wifi_reading }
    else s

pub startup_round : ChimeConfig → Round → RunState → RunState × List Effect
unfolding startup_step wifi_state_is_connected
startup_round c r s =
    let (startup, effects) =
      startup_step c r.now s.startup_begin (is_some s.last_wifi_state)
        (wifi_state_is_connected s.last_wifi_state) s.service.mqtt_connected s.startup in
    if s.startup.played then (s, []) else (record s { startup = startup }, effects)

-- The health log, every 60 seconds.
pub health_step : Round → RunState → RunState
health_step r s =
    let service = s.service in
    let synced : ServiceState = record service {
      clock_was_unsynced = service.clock_was_unsynced && not r.clock_sane;
    } in
    if leb 60 (seconds_between r.now s.last_health)
    then record s { last_health = r.now; service = synced }
    else s

-- The round behind the client's loop.
pub after_loop : ChimeConfig → Round → RunState → RunState × List Effect
unfolding reconnect_step heartbeat_step wifi_step startup_round health_step
after_loop c r s =
    let (s1, reconnects) = reconnect_step r s in
    let (s2, heartbeats) = heartbeat_step c r s1 in
    let (s3, notifications) = startup_round c r (wifi_step c r s2) in
    (health_step r s3, reconnects ++ (heartbeats ++ notifications))

-- One round: the callbacks, then the rest unless the service is stopped.
unfoldable pub round : ChimeConfig → Round → RunState → RunState × List Effect
unfolding handle_all after_loop
round c r s =
    let (service, called) = handle_all c r.callbacks s.service in
    let looped : RunState = record s { service = service } in
    let (s', effects) = after_loop c r looped in
    if r.stopped then (looped, called) else (s', called ++ effects)

-- The `while` loop: the rounds until the signal handler says to stop.
unfoldable pub run_rounds : ChimeConfig → List Round → RunState → RunState × List Effect
unfolding round
run_rounds c [] s = (s, [])
run_rounds c (r ∷ rounds) s =
    let (s1, effects) = round c r s in
    let (s2, more) = run_rounds c rounds s1 in
    if r.stopped then (s1, effects) else (s2, effects ++ more)

-- `Run` behind its logging: the result of `Connect`, the clock, the time and the wifi reading of
-- the start.
pub record Start : Type 0 where
  pub connect_ok : Bool
  pub clock_sane : Bool
  pub now : ℕ
  pub wifi_reading : Option WifiState
  pub files : TopicFiles

abbrev pub start_state : ChimeConfig → Start → RunState
start_state c start = record {
  service = record {
    mqtt_connected = false;
    messages_received = 0;
    ring_messages_received = 0;
    loop_errors = 0;
    reconnect_attempts = 0;
    heartbeats_sent = 0;
    clock_was_unsynced = not start.clock_sane;
    observed = Observed.initial;
    files = start.files;
  };
  last_heartbeat = start.now;
  last_health = start.now;
  last_wifi_check = start.now;
  last_wifi_state = start.wifi_reading;
  startup_begin = start.now;
  startup = record {
    played = not c.audio_enabled;
    unknown_logged = false;
    unknown_wifi_begin = none;
  };
}

-- `Run`: its result, and what was done.
unfoldable pub run : ChimeConfig → Start → List Round → ℕ × List Effect
unfolding run_rounds
run c start rounds =
    if not start.connect_ok
    then (1, [])
    else (0, (run_rounds c rounds (start_state c start)).1 ++ disconnect ∷ [])
