-- ===== src/Service/Rounds/Notify.antt =====
-- The startup notification over the whole run: at most once, for the right reason, and in time.
use virtualchime.Base.{
  ℕ, ◌+◌, ◌≤◌, Bool, true, false, ◌||◌, List, [], ◌∷◌, ◌++◌, ◌≡◌, inl, inr, refl, ap, ◌∙◌, arith,
  map, if◌then◌else◌, is_some, Bytes, ℤ, Bool-cases,
}
use virtualchime.ChimeConfig.{ChimeConfig}
use virtualchime.Service.{
  wifi_state_is_connected, ServiceState, Effect, play, subscribe, publish, reconnect, disconnect,
  Cause, ring, success, failure, Callback, connected, disconnected, message, on_connect, on_message,
  handle, handle_all, play_notification,
}
use virtualchime.Service.Startup.{Startup, startup_step, startup_unknown}
use virtualchime.Service.Rounds.{
  Round, RunState, reconnect_step, heartbeat_step, wifi_step, startup_round, health_step,
  after_loop, round, run_rounds, Start, start_state, run,
}

abbrev one_if : Cause → ℕ
one_if ring = 0
one_if success = 1
one_if failure = 1

abbrev notifications_of : Effect → ℕ
notifications_of (play cause path volume) = one_if cause
notifications_of (subscribe topic qos) = 0
notifications_of (publish topic payload) = 0
notifications_of reconnect = 0
notifications_of disconnect = 0

-- How many startup notifications are played.
abbrev pub notifications : List Effect → ℕ
notifications [] = 0
notifications (e ∷ es) = notifications_of e + notifications es

pub notifications-append :
    (xs ys : List Effect) → notifications (xs ++ ys) ≡ notifications xs + notifications ys
notifications-append [] ys = omega arith
notifications-append (x ∷ xs) ys = omega (arith, notifications-append xs ys)

notifications-subscribe :
    (qos : ℤ) (topics : List Bytes) → notifications (map (λ t. subscribe t qos) topics) ≡ 0
notifications-subscribe qos [] = refl
notifications-subscribe qos (t ∷ topics) = omega (arith, notifications-subscribe qos topics)

handle-notifications :
    (c : ChimeConfig) (callback : Callback) (s : ServiceState)
    → notifications (handle c callback s).1 ≡ 0
unfolding handle on_connect on_message
handle-notifications c (connected rc) s =
    ground (arith, notifications-subscribe c.mqtt_subscribe_qos c.topics)
handle-notifications c (disconnected rc) s = refl
handle-notifications c (message env topic) s = ground arith

handle_all-notifications :
    (c : ChimeConfig) (callbacks : List Callback) (s : ServiceState)
    → notifications (handle_all c callbacks s).1 ≡ 0
unfolding handle_all
handle_all-notifications c [] s = refl
handle_all-notifications c (k ∷ ks) s =
    let (s', effects) = handle c k s in
    omega (
      arith,
      notifications-append effects (handle_all c ks s').1,
      handle-notifications c k s,
      handle_all-notifications c ks s',
    )

-- How many notifications may still be played.
abbrev allowance : Bool → ℕ
allowance played = if played then 0 else 1

startup_step-allowance :
    (c : ChimeConfig) (now begin : ℕ) (known wifi mqtt : Bool) (s : Startup)
    → s.played ≡ false
    → c.audio_enabled ≡ true
    → notifications (startup_step c now begin known wifi mqtt s).1
        + allowance (startup_step c now begin known wifi mqtt s).0.played
      ≡ 1
unfolding startup_step startup_unknown play_notification
startup_step-allowance c now begin known wifi mqtt s h k = ground arith

startup_round-allowance :
    (c : ChimeConfig) (r : Round) (s : RunState)
    → (c.audio_enabled || s.startup.played) ≡ true
    → notifications (startup_round c r s).1 + allowance (startup_round c r s).0.startup.played
      ≡ allowance s.startup.played
unfolding startup_round
startup_round-allowance c r s h =
    let step =
      startup_step-allowance c r.now s.startup_begin (is_some s.last_wifi_state)
        (wifi_state_is_connected s.last_wifi_state) s.service.mqtt_connected s.startup in
    ground (arith, step)

reconnect-notifications :
    (r : Round) (s : RunState)
    → (notifications (reconnect_step r s).1 ≡ 0) × ((reconnect_step r s).0.startup ≡ s.startup)
unfolding reconnect_step
reconnect-notifications r s = ground arith

heartbeat-notifications :
    (c : ChimeConfig) (r : Round) (s : RunState)
    → (notifications (heartbeat_step c r s).1 ≡ 0) × ((heartbeat_step c r s).0.startup ≡ s.startup)
unfolding heartbeat_step
heartbeat-notifications c r s = ground arith

wifi_step-startup :
    (c : ChimeConfig) (r : Round) (s : RunState) → (wifi_step c r s).startup ≡ s.startup
unfolding wifi_step
wifi_step-startup c r s = ground arith

health_step-startup : (r : Round) (s : RunState) → (health_step r s).startup ≡ s.startup
unfolding health_step
health_step-startup r s = ground arith

after_loop-allowance :
    (c : ChimeConfig) (r : Round) (s : RunState)
    → (c.audio_enabled || s.startup.played) ≡ true
    → notifications (after_loop c r s).1 + allowance (after_loop c r s).0.startup.played
      ≡ allowance s.startup.played
unfolding after_loop
after_loop-allowance c r s h =
    let (s1, reconnects) = reconnect_step r s in
    let (s2, heartbeats) = heartbeat_step c r s1 in
    let (s3, played) = startup_round c r (wifi_step c r s2) in
    let split1 = notifications-append reconnects (heartbeats ++ played) in
    let split2 = notifications-append heartbeats played in
    let (none1, same1) = reconnect-notifications r s in
    let (none2, same2) = heartbeat-notifications c r s1 in
    let same : (wifi_step c r s2).startup ≡ s.startup = wifi_step-startup c r s2 ∙ same2 ∙ same1 in
    let step = startup_round-allowance c r (wifi_step c r s2) (simp same h) in
    let kept1 = ap (λ (t : Startup). allowance t.played) same1 in
    let kept2 = ap (λ (t : Startup). allowance t.played) same2 in
    let kept3 = ap (λ (t : Startup). allowance t.played) (wifi_step-startup c r s2) in
    let kept4 = ap (λ (t : Startup). allowance t.played) (health_step-startup r s3) in
    omega (arith, split1, split2, none1, none2, step, kept1, kept2, kept3, kept4)

round-allowance :
    (c : ChimeConfig) (r : Round) (s : RunState)
    → (c.audio_enabled || s.startup.played) ≡ true
    → notifications (round c r s).1 + allowance (round c r s).0.startup.played
      ≡ allowance s.startup.played
unfolding round
round-allowance c r s h =
    let (service, called) = handle_all c r.callbacks s.service in
    let looped : RunState = record s { service = service } in
    let quiet = handle_all-notifications c r.callbacks s.service in
    let split = notifications-append called (after_loop c r looped).1 in
    let step = after_loop-allowance c r looped h in
    elim (Bool-cases r.stopped) [
      | inl e ↦ simp e (omega (arith, quiet))
      | inr e ↦ simp e (omega (arith, quiet, split, step))
    ]

-- A notification is owed only while audio is enabled.
round_keeps_allowed :
    (c : ChimeConfig) (r : Round) (s : RunState)
    → (c.audio_enabled || s.startup.played) ≡ true
    → (c.audio_enabled || (round c r s).0.startup.played) ≡ true
round_keeps_allowed c r s h = ground (arith, round-allowance c r s h)

if-allowance :
    (b : Bool) (s t : RunState) (xs ys : List Effect) (n : ℕ)
    → notifications xs + allowance s.startup.played ≡ n
    → notifications ys + allowance t.startup.played ≡ n
    → notifications (if◌then◌else◌ {A = RunState × List Effect} b (s, xs) (t, ys)).1
        + allowance (if◌then◌else◌ {A = RunState × List Effect} b (s, xs) (t, ys)).0.startup.played
      ≡ n
if-allowance true s t xs ys n h k = h
if-allowance false s t xs ys n h k = k

-- A run of the loop plays the startup notification if it was owed and is not owed any more.
pub run_rounds-allowance :
    (c : ChimeConfig) (rounds : List Round) (s : RunState)
    → (c.audio_enabled || s.startup.played) ≡ true
    → notifications (run_rounds c rounds s).1 + allowance (run_rounds c rounds s).0.startup.played
      ≡ allowance s.startup.played
unfolding run_rounds
run_rounds-allowance c [] s h = omega arith
run_rounds-allowance c (r ∷ rounds) s h =
    let (s1, effects) = round c r s in
    let (s2, more) = run_rounds c rounds s1 in
    let step = round-allowance c r s h in
    let later = run_rounds-allowance c rounds s1 (round_keeps_allowed c r s h) in
    let split = notifications-append effects more in
    if-allowance r.stopped s1 s2 effects (effects ++ more) (allowance s.startup.played)
      (omega (arith, step)) (omega (arith, split, step, later))

-- However the service runs, it plays at most one startup notification, and none if audio is
-- disabled.
pub run-notifications :
    (c : ChimeConfig) (start : Start) (rounds : List Round)
    → notifications (run c start rounds).1 ≤ (if c.audio_enabled then 1 else 0)
unfolding run
run-notifications c start rounds =
    let s = start_state c start in
    let all_rounds = run_rounds-allowance c rounds s (ground arith) in
    let split = notifications-append (run_rounds c rounds s).1 (disconnect ∷ []) in
    ground (arith, all_rounds, split)
