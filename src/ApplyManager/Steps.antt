-- ===== src/ApplyManager/Steps.antt =====
-- The steps of `RunApplyJob` of chime/src/webd/apply_manager.cpp, and their interleavings.
use virtualchime.Base.{
  ℕ, ◌==◌, not, List, [], ◌∷◌, ◌++◌, Option, none, some, if◌then◌else◌, Bytes, codes, ℤ,
}
use virtualchime.ApplyManager.{
  ApplyState, running, failed, succeeded, ApplyManager, new_manager, WaitMacros, run_command,
  start_apply,
}

pub data Command : Type 0 where
  network_restart chime_restart : Command

-- Where a thread is: in front of the first lock, or in `std::system`.
pub data Stage : Type 0 where
  starting : Stage
  in_command : Command → Stage

pub record Thread : Type 0 where
  pub job : ℕ
  pub stage : Stage

-- `calls` are the calls of `std::system` that returned, with their values, the latest first.
pub record System : Type 0 where
  pub manager : ApplyManager
  pub threads : List Thread
  pub calls : List (Command × ℤ)

abbrev pub initial : System
initial = record { manager = new_manager; threads = []; calls = [] }

abbrev pub prefix_of : Command → Bytes
prefix_of network_restart = codes "network restart failed: "
prefix_of chime_restart = codes "chime restart failed: "

-- The first block of `RunApplyJob`, and where the thread goes; none where it returns.
unfoldable pub begin_job : Bytes → ℕ → ApplyManager → ApplyManager × Option Stage
begin_job now job m = if not (m.status.job_id == job) then (m, none) else (
  record m { status = record m.status { state = running; started_at_utc = now } },
  some (in_command network_restart),
)

-- The status when a job ends.
abbrev pub finish_job : Bytes → ApplyState → Bytes → ApplyManager → ApplyManager
finish_job now state error m = record m {
  status = record m.status { state = state; finished_at_utc = now; error = error };
}

abbrev pub next_stage : Bytes → Command → ApplyManager → ApplyManager × Option Stage
next_stage now network_restart m = (m, some (in_command chime_restart))
next_stage now chime_restart m = (finish_job now succeeded [] m, none)

-- What `RunApplyJob` does when a command returned.
unfoldable pub command_returned :
    WaitMacros → Bytes → Command → ℤ → ApplyManager → ApplyManager × Option Stage
unfolding run_command
command_returned w now command rc m = elim (run_command w rc) [
  | some error ↦ (finish_job now failed (prefix_of command ++ error) m, none)
  | none ↦ next_stage now command m
]

abbrev pub started : Option ℕ → List Thread → List Thread
started none threads = threads
started (some job) threads = record { job = job; stage = starting } ∷ threads

abbrev pub advanced : ℕ → Option Stage → List Thread
advanced job none = []
advanced job (some stage) = record { job = job; stage = stage } ∷ []

-- One step: a call of `StartApply`, or a step of any one thread, which stands between others.
pub data Step (w : WaitMacros) : System → System → Type 0 where
  start :
      (now : Bytes) (s : System)
      → Step w s record {
        manager = (start_apply now s.manager).0;
        threads = started (start_apply now s.manager).2 s.threads;
        calls = s.calls;
      }
  begin :
      (now : Bytes) (m : ApplyManager) (calls : List (Command × ℤ)) (before after : List Thread)
      (job : ℕ)
      → Step w
          record {
            manager = m;
            threads = before ++ record { job = job; stage = starting } ∷ after;
            calls = calls;
          }
          record {
            manager = (begin_job now job m).0;
            threads = before ++ (advanced job (begin_job now job m).1 ++ after);
            calls = calls;
          }
  command_end :
      (now : Bytes) (m : ApplyManager) (calls : List (Command × ℤ)) (before after : List Thread)
      (job : ℕ) (command : Command) (rc : ℤ)
      → Step w
          record {
            manager = m;
            threads = before ++ record { job = job; stage = in_command command } ∷ after;
            calls = calls;
          }
          record {
            manager = (command_returned w now command rc m).0;
            threads = before ++ (advanced job (command_returned w now command rc m).1 ++ after);
            calls = (command, rc) ∷ calls;
          }

-- The systems that any interleaving leads to.
pub data Reachable (w : WaitMacros) : System → Type 0 where
  at_start : Reachable w initial
  next : {s t : System} → Reachable w s → Step w s t → Reachable w t
