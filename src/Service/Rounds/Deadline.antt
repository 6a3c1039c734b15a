-- ===== src/Service/Rounds/Deadline.antt =====
-- The startup notification is played in time, whatever the wifi and the broker do.
use virtualchime.Base.{
  ℕ, ◌+◌, ◌*◌, ◌≤◌, Bool, true, false, not, List, [], ◌∷◌, ◌++◌, ◌≡◌, ◌⊎◌, inl, inr, refl, sym, ap,
  ◌∙◌, arith, if◌then◌else◌, leb, is_some, all, Bool-cases,
}
use virtualchime.ChimeConfig.{ChimeConfig}
use virtualchime.Service.{handle_all, wifi_state_is_connected, disconnect}
use virtualchime.Service.Startup.{Startup, startup_step}
use virtualchime.Service.Startup.Decided.{
  Waiting, Consistent, startup_step-Waiting, startup_step-over, startup_step_keeps_Waiting,
  startup_step-Consistent, new-Consistent,
}
use virtualchime.Service.Rounds.{
  Round, RunState, reconnect_step, heartbeat_step, wifi_step, startup_round, health_step,
  after_loop, round, run_rounds, Start, start_state, run,
}
use virtualchime.Service.Rounds.Notify.{notifications, notifications-append, run_rounds-allowance}

-- What the startup block is run on.
abbrev Looked : ChimeConfig → ℕ → ℕ → Startup → Startup → Type 0
Looked c now begin before after =
    (known : Bool) × (wifi : Bool) × (mqtt : Bool) × (after
      ≡ (startup_step c now begin known wifi mqtt before).0)

reconnect_keeps :
    (r : Round) (s : RunState)
    → ((reconnect_step r s).0.startup ≡ s.startup)
      × ((reconnect_step r s).0.startup_begin ≡ s.startup_begin)
unfolding reconnect_step
reconnect_keeps r s = ground arith

heartbeat_keeps :
    (c : ChimeConfig) (r : Round) (s : RunState)
    → ((heartbeat_step c r s).0.startup ≡ s.startup)
      × ((heartbeat_step c r s).0.startup_begin ≡ s.startup_begin)
unfolding heartbeat_step
heartbeat_keeps c r s = ground arith

wifi_keeps :
    (c : ChimeConfig) (r : Round) (s : RunState)
    → ((wifi_step c r s).startup ≡ s.startup) × ((wifi_step c r s).startup_begin ≡ s.startup_begin)
unfolding wifi_step
wifi_keeps c r s = ground arith

health_keeps :
    (r : Round) (s : RunState)
    → ((health_step r s).startup ≡ s.startup) × ((health_step r s).startup_begin ≡ s.startup_begin)
unfolding health_step
health_keeps r s = ground arith

-- What a round does to the startup variables.
abbrev RoundDoes : ChimeConfig → ℕ → ℕ → Startup → Startup → Type 0
RoundDoes c now begin before after =
    (before.played ≡ true) × (after ≡ before)
    ⊎ (before.played ≡ false) × Looked c now begin before after

if_false :
    {A B : Type 0} (b : Bool) (p q : A × B) → b ≡ false → (if◌then◌else◌ {A = A × B} b p q).0 ≡ q.0
if_false true p q h = absurd (cc h)
if_false false p q h = refl

carry :
    (c : ChimeConfig) (now : ℕ) {begin begin' : ℕ} {before before' after after' : Startup}
    → begin ≡ begin'
    → before ≡ before'
    → after ≡ after'
    → RoundDoes c now begin before after
    → RoundDoes c now begin' before' after'
carry c now p q r h = rw (← p, ← q, ← r) h

startup_round_does :
    (c : ChimeConfig) (r : Round) (s : RunState)
    → RoundDoes c r.now s.startup_begin s.startup (startup_round c r s).0.startup
      × ((startup_round c r s).0.startup_begin ≡ s.startup_begin)
unfolding startup_round
startup_round_does c r s = elim (Bool-cases s.startup.played) [
  | inl e ↦ (inl (e, simp e refl), simp e refl)
  | inr e ↦ (
    inr (
      e,
      (
        is_some s.last_wifi_state,
        wifi_state_is_connected s.last_wifi_state,
        s.service.mqtt_connected,
        simp e refl,
      ),
    ),
    simp e refl,
  )
]

after_loop_does :
    (c : ChimeConfig) (r : Round) (s : RunState)
    → RoundDoes c r.now s.startup_begin s.startup (after_loop c r s).0.startup
      × ((after_loop c r s).0.startup_begin ≡ s.startup_begin)
unfolding after_loop
after_loop_does c r s =
    let (s1, reconnects) = reconnect_step r s in
    let (s2, heartbeats) = heartbeat_step c r s1 in
    let s3 : RunState = wifi_step c r s2 in
    let (s4, played) = startup_round c r s3 in
    let (startup1, begin1) = reconnect_keeps r s in
    let (startup2, begin2) = heartbeat_keeps c r s1 in
    let (startup3, begin3) = wifi_keeps c r s2 in
    let (startup5, begin5) = health_keeps r s4 in
    let (does, begin4) = startup_round_does c r s3 in
    (
      carry c r.now (begin3 ∙ begin2 ∙ begin1) (startup3 ∙ startup2 ∙ startup1) (sym startup5) does,
      begin5 ∙ begin4 ∙ begin3 ∙ begin2 ∙ begin1,
    )

abbrev runs : Round → Bool
runs r = not r.stopped

round_does :
    (c : ChimeConfig) (r : Round) (s : RunState)
    → runs r ≡ true
    → RoundDoes c r.now s.startup_begin s.startup (round c r s).0.startup
      × ((round c r s).0.startup_begin ≡ s.startup_begin)
unfolding round
round_does c r s h =
    let e : r.stopped ≡ false = ground (arith, h) in
    let looped : RunState = record s { service = (handle_all c r.callbacks s.service).0 } in
    let done = after_loop_does c r looped in simp e done

run_rounds-first :
    (c : ChimeConfig) (r : Round) (rounds : List Round) (s : RunState)
    → runs r ≡ true
    → (run_rounds c (r ∷ rounds) s).0 ≡ (run_rounds c rounds (round c r s).0).0
unfolding run_rounds
run_rounds-first c r rounds s h = if_false r.stopped _ _ (ground (arith, h))

run_rounds-none : (c : ChimeConfig) (s : RunState) → (run_rounds c [] s).0 ≡ s
unfolding run_rounds
run_rounds-none c s = refl

-- A decision, or a wait that began at `t` or before.
abbrev Due : ℕ → RunState → Type 0
Due t s = (s.startup.played ≡ true) ⊎ Waiting t s.startup

abbrev Early : ℕ → RunState → Type 0
Early t s = (s.startup.played ≡ true) ⊎ Consistent t s.startup

-- A property of the variables that the block either decides or keeps goes through a round.
through :
    (c : ChimeConfig) (r : Round) (s : RunState) (P Q : Startup → Type 0)
    → ((known wifi mqtt : Bool) (x : Startup)
        → P x
        → ((startup_step c r.now s.startup_begin known wifi mqtt x).0.played ≡ true)
          ⊎ Q (startup_step c r.now s.startup_begin known wifi mqtt x).0)
    → runs r ≡ true
    → (s.startup.played ≡ true) ⊎ P s.startup
    → ((round c r s).0.startup.played ≡ true) ⊎ Q (round c r s).0.startup
through c r s P Q step h k = elim ((round_does c r s h).0) [
  | inl (played, same) ↦ inl (ap (λ (x : Startup). x.played) same ∙ played)
  | inr (waits, (known, wifi, mqtt, same)) ↦ elim k [
    | inl played ↦ absurd (cc (waits, played))
    | inr p ↦ rw same (step known wifi mqtt s.startup p)
  ]
]

-- From a round on that is due, the loop decides by the last round.
decides_last :
    (c : ChimeConfig) (t : ℕ) (last : Round) (between : List Round) (s : RunState)
    → Due t s
    → all runs between ≡ true
    → runs last ≡ true
    → s.startup_begin + 10 * 1000000000 ≤ last.now
    → t + 30 * 1000000000 ≤ last.now
    → (run_rounds c (between ++ last ∷ []) s).0.startup.played ≡ true
decides_last c t last [] s due h run_last late over =
    let decided =
      through c last s (Waiting t) (λ x. x.played ≡ true)
        (λ known wifi mqtt x w.
          inl (startup_step-over c last.now s.startup_begin t known wifi mqtt x late over w))
        run_last due in
    ap (λ (x : RunState). x.startup.played) (run_rounds-first c last [] s run_last)
    ∙ ap (λ (x : RunState). x.startup.played) (run_rounds-none c (round c last s).0)
    ∙ elim decided [ inl p ↦ p | inr p ↦ p ]
decides_last c t last (r ∷ between) s due h run_last late over =
    let running : runs r ≡ true = ground (arith, h) in
    let more : all runs between ≡ true = ground (arith, h) in
    let next =
      through c r s (Waiting t) (Waiting t)
        (λ known wifi mqtt x w.
          startup_step_keeps_Waiting c r.now s.startup_begin t known wifi mqtt x w)
        running due in
    let same = (round_does c r s running).1 in
    ap (λ (x : RunState). x.startup.played) (run_rounds-first c r (between ++ last ∷ []) s running)
    ∙ decides_last c t last between (round c r s).0 next more run_last (omega (arith, same, late))
        over

-- The rounds up to the first one that is ten seconds late leave the variables consistent.
decides :
    (c : ChimeConfig) (first last : Round) (early between : List Round) (s : RunState)
    → Early first.now s
    → all (λ r. leb r.now first.now) early ≡ true
    → all runs early ≡ true
    → all runs (first ∷ between) ≡ true
    → runs last ≡ true
    → s.startup_begin + 10 * 1000000000 ≤ first.now
    → first.now + 30 * 1000000000 ≤ last.now
    → (run_rounds c (early ++ first ∷ (between ++ last ∷ [])) s).0.startup.played ≡ true
decides c first last [] between s k before h h' run_last late over =
    let running : runs first ≡ true = ground (arith, h') in
    let more : all runs between ≡ true = ground (arith, h') in
    let next =
      through c first s (Consistent first.now) (Waiting first.now)
        (λ known wifi mqtt x w.
          startup_step-Waiting c first.now s.startup_begin known wifi mqtt x late w)
        running k in
    let same = (round_does c first s running).1 in
    ap (λ (x : RunState). x.startup.played)
      (run_rounds-first c first (between ++ last ∷ []) s running)
    ∙ decides_last c first.now last between (round c first s).0 next more run_last
        (omega (arith, same, late, over)) over
decides c first last (r ∷ early) between s k before h h' run_last late over =
    let running : runs r ≡ true = ground (arith, h) in
    let more : all runs early ≡ true = ground (arith, h) in
    let at : leb r.now first.now ≡ true = ground (arith, before) in
    let ats : all (λ r. leb r.now first.now) early ≡ true = ground (arith, before) in
    let next =
      through c r s (Consistent first.now) (Consistent first.now)
        (λ known wifi mqtt x w.
          startup_step-Consistent c r.now s.startup_begin first.now known wifi mqtt x
            (ground (arith, at)) w)
        running k in
    let same = (round_does c r s running).1 in
    ap (λ (x : RunState). x.startup.played)
      (run_rounds-first c r (early ++ first ∷ (between ++ last ∷ [])) s running)
    ∙ decides c first last early between (round c r s).0 next ats more h' run_last
        (omega (arith, same, late)) over

-- With audio enabled and a client that connects, the service plays exactly one startup
-- notification by the time of its last round, if that round is thirty seconds behind a round that
-- is ten seconds behind the start: whatever the wifi readings, the callbacks and the other rounds
-- are, as long as no round is stopped and no earlier round has a later time.
pub run-deadline :
    (c : ChimeConfig) (start : Start) (first last : Round) (early between : List Round)
    → c.audio_enabled ≡ true
    → start.connect_ok ≡ true
    → all (λ r. leb r.now first.now) early ≡ true
    → all runs early ≡ true
    → all runs (first ∷ between) ≡ true
    → runs last ≡ true
    → start.now + 10 * 1000000000 ≤ first.now
    → first.now + 30 * 1000000000 ≤ last.now
    → notifications (run c start (early ++ first ∷ (between ++ last ∷ []))).1 ≡ 1
unfolding run
run-deadline c start first last early between audio connects before h h' run_last late over =
    let s : RunState = start_state c start in
    let rounds = early ++ first ∷ (between ++ last ∷ []) in
    let done =
      decides c first last early between s (inr (new-Consistent first.now s.startup refl)) before h
        h' run_last late over in
    let balance = run_rounds-allowance c rounds s (ground (arith, audio)) in
    let split = notifications-append (run_rounds c rounds s).1 (disconnect ∷ []) in
    ground (arith, balance, split, done)
