-- ===== src/ApplyManager.antt =====
-- `ApplyManager` of chime/src/webd/apply_manager.cpp. The threads that `StartApply` detaches are a
-- list; what they do between two locks of the mutex is one step.
pub mod Steps
pub mod OneJob
pub mod Diagram
use virtualchime.Base.{
  ℕ, ◌==◌, Bool, true, false, not, ◌||◌, List, [], ◌∷◌, ◌++◌, Option, none, some, ◌+◌, ◌%◌, ◌^◌,
  if◌then◌else◌, Bytes, codes, ℤ, pos, negsuc, ltb_ℤ,
}
use virtualchime.Text.{to_string}

-- The strings "idle", "pending", "running", "failed" and "succeeded".
pub data ApplyState : Type 0 where
  idle pending running failed succeeded : ApplyState

pub record ApplyStatus : Type 0 where
  pub job_id : ℕ
  pub state : ApplyState
  pub started_at_utc : Bytes
  pub finished_at_utc : Bytes
  pub error : Bytes

-- The members that change.
pub record ApplyManager : Type 0 where
  pub status : ApplyStatus
  pub next_job_id : ℕ

abbrev pub new_manager : ApplyManager
new_manager = record {
  status = record {
    job_id = 0;
    state = idle;
    started_at_utc = [];
    finished_at_utc = [];
    error = [];
  };
  next_job_id = 1;
}

unfoldable pub is_active : ApplyState → Bool
is_active idle = false
is_active pending = true
is_active running = true
is_active failed = false
is_active succeeded = false

-- The macros of sys/wait.h.
pub record WaitMacros : Type 0 where
  pub wifexited : ℤ → Bool
  pub wexitstatus : ℤ → ℤ
  pub wifsignaled : ℤ → Bool
  pub wtermsig : ℤ → ℤ

abbrev is_zero : ℤ → Bool
is_zero (pos n) = n == 0
is_zero (negsuc n) = false

-- `RunCommand` on the value that `std::system` returns: the error, none where it returns true.
unfoldable pub run_command : WaitMacros → ℤ → Option Bytes
unfolding to_string
run_command w rc =
    if is_zero rc
    then none
    else if ltb_ℤ rc (pos 0)
    then some (codes "system() failed")
    else if w.wifexited rc
    then some (codes "exit code " ++ to_string (w.wexitstatus rc))
    else if w.wifsignaled rc
    then some (codes "signal " ++ to_string (w.wtermsig rc))
    else some (codes "unknown failure")

-- `StartApply`: the manager afterwards, the status that is returned, and the job of the thread
-- that is started.
unfoldable pub start_apply : Bytes → ApplyManager → ApplyManager × ApplyStatus × Option ℕ
unfolding is_active
start_apply now m =
    let status : ApplyStatus = record {
      job_id = m.next_job_id;
      state = pending;
      started_at_utc = now;
      finished_at_utc = [];
      error = [];
    } in
    if is_active m.status.state then (m, m.status, none) else (
      record { status = status; next_job_id = (m.next_job_id + 1) % 2 ^ 64 },
      status,
      some m.next_job_id,
    )

-- `CurrentStatus`.
abbrev pub current_status : ApplyManager → ApplyStatus
current_status m = m.status
