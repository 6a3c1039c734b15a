-- ===== src/ApplyManager/OneJob.antt =====
-- At most one job runs at a time, and its status says how its commands went.
use virtualchime.Base.{
  ℕ, true, false, List, [], ◌∷◌, ◌++◌, ◌≡◌, inl, inr, refl, ap, arith, ◌≢◌, none, some, Bytes, ℤ,
  Option-cases, ◌==◌,
}
use virtualchime.ApplyManager.{
  ApplyState, idle, pending, running, failed, succeeded, ApplyManager, WaitMacros, run_command,
  start_apply, is_active,
}
use virtualchime.ApplyManager.Steps.{
  Command, network_restart, chime_restart, Stage, starting, in_command, Thread, System, prefix_of,
  begin_job, command_returned, next_stage, started, advanced, Step, start, begin, command_end,
  Reachable, at_start, next,
}

-- What holds while a thread is at a stage.
pub data Going (w : WaitMacros) : Stage → ApplyState → List (Command × ℤ) → Type 0 where
  at_lock : {calls : List (Command × ℤ)} → Going w starting pending calls
  at_network : {calls : List (Command × ℤ)} → Going w (in_command network_restart) running calls
  at_chime :
      {calls : List (Command × ℤ)} (rc : ℤ)
      → run_command w rc ≡ none
      → Going w (in_command chime_restart) running ((network_restart, rc) ∷ calls)

-- What holds when no thread is left: the state, the error, and the calls that led to them.
pub data Ended (w : WaitMacros) : ApplyState → Bytes → List (Command × ℤ) → Type 0 where
  never_started : Ended w idle [] []
  all_ran :
      {calls : List (Command × ℤ)} (first second : ℤ)
      → run_command w first ≡ none
      → run_command w second ≡ none
      → Ended w succeeded [] ((chime_restart, second) ∷ (network_restart, first) ∷ calls)
  one_failed :
      {calls : List (Command × ℤ)} (command : Command) (rc : ℤ) (error : Bytes)
      → run_command w rc ≡ some error
      → Ended w failed (prefix_of command ++ error) ((command, rc) ∷ calls)

-- Either no thread is left, or there is one, of the job that the status names.
pub data OneJob (w : WaitMacros) (s : System) : Type 0 where
  resting :
      s.threads ≡ [] → Ended w s.manager.status.state s.manager.status.error s.calls → OneJob w s
  busy :
      (stage : Stage)
      → s.threads ≡ record { job = s.manager.status.job_id; stage = stage } ∷ []
      → Going w stage s.manager.status.state s.calls
      → OneJob w s

Ended-inactive :
    {w : WaitMacros} {state : ApplyState} {error : Bytes} {calls : List (Command × ℤ)}
    → Ended w state error calls
    → is_active state ≡ false
unfolding is_active
Ended-inactive never_started = refl
Ended-inactive (all_ran a b f g) = refl
Ended-inactive (one_failed c rc e f) = refl

Going-active :
    {w : WaitMacros} {stage : Stage} {state : ApplyState} {calls : List (Command × ℤ)}
    → Going w stage state calls
    → is_active state ≡ true
unfolding is_active
Going-active at_lock = refl
Going-active at_network = refl
Going-active (at_chime rc f) = refl

-- A thread among others that are one thread is that thread.
only_thread :
    (before after : List Thread) (t u : Thread)
    → before ++ t ∷ after ≡ u ∷ []
    → (before ≡ []) × (after ≡ []) × (t ≡ u)
only_thread [] after t u h = ground (arith, h)
only_thread (b ∷ []) after t u h = absurd (ground (arith, h))
only_thread (b ∷ c ∷ before) after t u h = absurd (ground (arith, h))

cons_ne_nil : (before after : List Thread) (t : Thread) → before ++ t ∷ after ≢ []
cons_ne_nil [] after t = ground arith
cons_ne_nil (b ∷ before) after t = ground arith

module _ (w : WaitMacros) where
  chime_stage :
      {state : ApplyState} {calls : List (Command × ℤ)}
      → Going w (in_command chime_restart) state calls
      → (rc : ℤ) × (older : List (Command × ℤ)) × (calls ≡ (network_restart, rc) ∷ older)
        × (run_command w rc ≡ none)
  chime_stage (at_chime {calls} rc f) = (rc, calls, refl, f)

  network_stage :
      {state : ApplyState} {calls : List (Command × ℤ)}
      → Going w (in_command network_restart) state calls
      → state ≡ running
  network_stage at_network = refl

  -- The thread that steps is the only one, and the status names its job.
  pub stepping :
      (m : ApplyManager) (calls : List (Command × ℤ)) (before after : List Thread) (t : Thread)
      → OneJob w record { manager = m; threads = before ++ t ∷ after; calls = calls }
      → (before ≡ [])
        × (after ≡ [])
        × (t.job ≡ m.status.job_id)
        × Going w t.stage m.status.state calls
  stepping m calls before after t (resting h e) = absurd (cons_ne_nil before after t h)
  stepping m calls before after t (busy stage h g) =
      let (p, q, e) =
        only_thread before after t record { job = m.status.job_id; stage = stage } h in
      (p, q, ap (λ t. t.job) e, rw (e) g)

  start-OneJob :
      (now : Bytes) (s : System)
      → OneJob w s
      → OneJob w record {
        manager = (start_apply now s.manager).0;
        threads = started (start_apply now s.manager).2 s.threads;
        calls = s.calls;
      }
  unfolding start_apply
  start-OneJob now s (resting h e) =
      rw (Ended-inactive e) (
        busy starting (ap (◌∷◌ record { job = s.manager.next_job_id; stage = starting }) h) at_lock)
  start-OneJob now s (busy stage h g) = rw (Going-active g) (busy stage h g)

  begin-OneJob :
      (now : Bytes) (m : ApplyManager) (calls : List (Command × ℤ)) (before after : List Thread)
      (job : ℕ)
      → OneJob w record {
        manager = m;
        threads = before ++ record { job = job; stage = starting } ∷ after;
        calls = calls;
      }
      → OneJob w record {
        manager = (begin_job now job m).0;
        threads = before ++ (advanced job (begin_job now job m).1 ++ after);
        calls = calls;
      }
  unfolding begin_job
  begin-OneJob now m calls before after job h =
      let (p, q, same, g) =
        stepping m calls before after record { job = job; stage = starting } h in
      let tested : (m.status.job_id == job) ≡ true = ground (arith, same) in
      rw (p, q, tested, same) (busy (in_command network_restart) refl at_network)

  ran_well :
      (now : Bytes) (m : ApplyManager) (command : Command) (rc : ℤ) (calls : List (Command × ℤ))
      → Going w (in_command command) m.status.state calls
      → run_command w rc ≡ none
      → OneJob w record {
        manager = (next_stage now command m).0;
        threads = advanced m.status.job_id (next_stage now command m).1 ++ [];
        calls = (command, rc) ∷ calls;
      }
  ran_well now m network_restart rc calls g e =
      busy (in_command chime_restart) refl (rw (network_stage g) (at_chime rc e))
  ran_well now m chime_restart rc calls g e =
      let (first, older, same, f) = chime_stage g in resting refl (rw same (all_ran first rc f e))

  command_end-OneJob :
      (now : Bytes) (m : ApplyManager) (calls : List (Command × ℤ)) (before after : List Thread)
      (job : ℕ) (command : Command) (rc : ℤ)
      → OneJob w record {
        manager = m;
        threads = before ++ record { job = job; stage = in_command command } ∷ after;
        calls = calls;
      }
      → OneJob w record {
        manager = (command_returned w now command rc m).0;
        threads = before ++ (advanced job (command_returned w now command rc m).1 ++ after);
        calls = (command, rc) ∷ calls;
      }
  unfolding command_returned
  command_end-OneJob now m calls before after job command rc h =
      let (p, q, same, g) =
        stepping m calls before after record { job = job; stage = in_command command } h in
      elim (Option-cases (run_command w rc)) [
        | inr (error, e) ↦
            rw (e, p, q, command_returned) (resting refl (one_failed command rc error e))
        | inl e ↦ rw (e, p, q, same, command_returned) (ran_well now m command rc calls g e)
      ]

  pub step-OneJob : (s t : System) → OneJob w s → Step w s t → OneJob w t
  step-OneJob _ _ h (start now s) = start-OneJob now s h
  step-OneJob _ _ h (begin now m calls before after job) =
      begin-OneJob now m calls before after job h
  step-OneJob _ _ h (command_end now m calls before after job command rc) =
      command_end-OneJob now m calls before after job command rc h

  -- However the calls of `StartApply` and the threads interleave: there is at most one thread, of
  -- the job that the status names; while it runs the state is "pending" or "running", and the
  -- second command runs only behind a first one that succeeded. When there is no thread, the state
  -- is "succeeded" only if both commands of the last job succeeded, and "failed" only if its last
  -- command failed, whose error is the status's.
  pub Reachable-OneJob : (s : System) → Reachable w s → OneJob w s
  Reachable-OneJob _ at_start = resting refl never_started
  Reachable-OneJob t (next {s} r step) = step-OneJob s t (Reachable-OneJob s r) step
