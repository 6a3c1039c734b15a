-- ===== src/ApplyManager/Diagram.antt =====
-- The job of `ApplyManager` of chime/src/webd/apply_manager.cpp as a client sees it: a state machine
-- without threads, which the steps of all threads refine.
use virtualchime.Base.{ℕ, ◌+◌, ◌%◌, ◌^◌, false, ◌++◌, [], ◌≡◌, none, some, Bytes, ℤ}
use virtualchime.ApplyManager.{
  ApplyState, pending, running, failed, succeeded, ApplyManager, WaitMacros, run_command, is_active,
}
use virtualchime.ApplyManager.Steps.{Command, prefix_of}
use virtualchime.ApplyManager.OneJob.{OneJob}

-- The job that the status names, the number of the next one, and how the job stands.
pub record View : Type 0 where
  pub job : ℕ
  pub next_job : ℕ
  pub state : ApplyState
  pub error : Bytes

abbrev pub view : ApplyManager → View
view m = record {
  job = m.status.job_id;
  next_job = m.next_job_id;
  state = m.status.state;
  error = m.status.error;
}

-- What a client can see happen: nothing, a new job in place of one that is over, its begin, its
-- failure with the error of one command, and its success.
pub data Move (w : WaitMacros) (v : View) : View → Type 0 where
  stays : Move w v v
  submits :
      is_active v.state ≡ false
      → Move w v record {
        job = v.next_job;
        next_job = (v.next_job + 1) % 2 ^ 64;
        state = pending;
        error = [];
      }
  begins : v.state ≡ pending → Move w v (record v { state = running })
  fails :
      (command : Command) (rc : ℤ) (error : Bytes)
      → v.state ≡ running
      → run_command w rc ≡ some error
      → Move w v (record v { state = failed; error = prefix_of command ++ error })
  succeeds :
      (rc : ℤ)
      → v.state ≡ running
      → run_command w rc ≡ none
      → Move w v (record v { state = succeeded; error = [] })
