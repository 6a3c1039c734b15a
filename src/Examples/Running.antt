-- ===== src/Examples/Running.antt =====
-- Concrete runs of the service and of the apply jobs.
use virtualchime.Base.{
  ℕ, ◌%◌, ◌/◌, ◌==◌, ◌&&◌, not, ◌*◌, ◌≤◌, true, false, List, [], ◌∷◌, ◌++◌, ◌≡◌, ◌↔◌, refl, arith,
  none, some, Bytes, codes, ℤ, pos, negsuc, member, nodup,
}
use virtualchime.Text.{join}
use virtualchime.Topic.Matching.{Matches}
use virtualchime.ChimeConfig
use virtualchime.ChimeConfig.{ChimeConfig}
use virtualchime.Observed
use virtualchime.Observed.{
  Observed, TopicFiles, PersistEnv, record_observed_topic, persist_observed_topics,
  load_observed_topics,
}
use virtualchime.Observed.Invariant.{
  Inv, initial-Inv, record_observed_topic-Inv, record_observed_topic-member,
}
use virtualchime.Base.{◌⊎◌, ◌≢◌}
use virtualchime.Text.{unlines}
use virtualchime.Observed.Persistence.{
  persist_observed_topics_atomic, AllStored, IsStored, load-persist,
}
use virtualchime.Service.{ServiceState, play, ring, Callback, connected, message, on_message}
use virtualchime.Service.Callbacks.{on_message-ring}
use virtualchime.Service.Startup.{Startup}
use virtualchime.Service.Rounds.{Round, RunState, Start, start_state, run}
use virtualchime.Service.Rounds.Notify.{notifications, run-notifications}
use virtualchime.Service.Rounds.Deadline.{run-deadline}
use virtualchime.ApplyManager.{WaitMacros, start_apply}
use virtualchime.ApplyManager.Steps.{
  begin_job, advanced, System, initial, started, Step, Reachable, at_start,
}
use virtualchime.ApplyManager.OneJob.{OneJob, Reachable-OneJob}

abbrev c : ChimeConfig
c = ChimeConfig.defaults

abbrev no_files : TopicFiles
no_files = record { main = none; temp = none }

abbrev works : PersistEnv
works = record {
  create_ok = true;
  open_ok = true;
  write_ok = true;
  partial = [];
  rename_ok = true;
  remove_ok = true;
}

abbrev begin : Start
begin = record {
  connect_ok = true;
  clock_sane = true;
  now = 0;
  wifi_reading = none;
  files = no_files;
}

abbrev service : ServiceState
service = (start_state c begin).service

abbrev calls : List Callback
calls = connected (pos 0) ∷ message works (codes "doorbell/ring") ∷ []

abbrev round_at : ℕ → Round
round_at seconds = record {
  callbacks = calls;
  loop_rc = pos 0;
  stopped = false;
  now = seconds * 1000000000;
  publish_ok = true;
  wifi_reading = none;
  clock_sane = true;
}

run-deadline_example :
    notifications
      (run c begin (round_at 1 ∷ [] ++ round_at 11 ∷ (round_at 20 ∷ [] ++ round_at 41 ∷ []))).1
    ≡ 1
run-deadline_example =
    run-deadline c begin (round_at 11) (round_at 41) (round_at 1 ∷ []) (round_at 20 ∷ []) refl refl
      refl refl refl refl (omega arith) (omega arith)

run-notifications_example : notifications (run c begin (round_at 1 ∷ round_at 2 ∷ [])).1 ≤ 1
run-notifications_example = run-notifications c begin (round_at 1 ∷ round_at 2 ∷ [])

abbrev waiting : Startup
waiting = record { played = false; unknown_logged = false; unknown_wifi_begin = none }

abbrev wifi_up : Round
wifi_up = record (round_at 5) {
  wifi_reading = some record { interface_present = true; operstate = codes "up"; carrier = pos 1 };
}

abbrev begun : RunState
begun = start_state c begin

on_message-ring_example :
    ((on_message c works (join (b'/' ∷ []) (codes "doorbell" ∷ codes "ring" ∷ [])) service).1
      ≡ play ring c.sound_path c.volume_bell ∷ [])
    ↔ ((c.audio_enabled ≡ true)
        × Matches (codes "doorbell" ∷ codes "ring" ∷ []) (codes "doorbell" ∷ codes "ring" ∷ []))
on_message-ring_example =
    on_message-ring c works service (codes "doorbell") (codes "ring" ∷ []) (codes "doorbell")
      (codes "ring" ∷ []) refl refl refl

record_observed_topic-Inv_example :
    Inv (record_observed_topic works (codes "a") Observed.initial no_files).0
record_observed_topic-Inv_example =
    record_observed_topic-Inv works (codes "a") Observed.initial no_files initial-Inv

record_observed_topic-member_example :
    member (codes "a") (record_observed_topic works (codes "a") Observed.initial no_files).0.topics
    ≡ true
record_observed_topic-member_example =
    record_observed_topic-member works (codes "a") Observed.initial no_files initial-Inv refl

a-IsStored : IsStored (codes "a")
a-IsStored = record {
  filled = refl;
  one_line = refl;
  trimmed = record { starts = refl; ends = refl };
}

one_topic : nodup (codes "a" ∷ []) ≡ true
unfolding nodup
one_topic = refl

persisted : (persist_observed_topics works (codes "a" ∷ []) no_files).1 ≡ none
unfolding persist_observed_topics
persisted = refl

load-persist_example :
    (load_observed_topics (persist_observed_topics works (codes "a" ∷ []) no_files).0.main).topics
    ≡ codes "a" ∷ []
load-persist_example =
    load-persist works (codes "a" ∷ []) no_files (AllStored.cons a-IsStored AllStored.nil) one_topic
      (omega arith) persisted

abbrev status_number : ℤ → ℕ
status_number (pos n) = n
status_number (negsuc n) = 0

-- The encoding of a Linux wait status.
abbrev linux : WaitMacros
linux = record {
  wifexited = λ rc. status_number rc % 128 == 0;
  wexitstatus = λ rc. pos (status_number rc / 256 % 256);
  wifsignaled = λ rc. not (status_number rc % 128 == 0) && not (status_number rc % 128 == 127);
  wtermsig = λ rc. pos (status_number rc % 128);
}

abbrev morning : Bytes
morning = codes "2024-01-01T06:00:00Z"

abbrev one_job : System
one_job = record {
  manager = (start_apply morning initial.manager).0;
  threads = started (start_apply morning initial.manager).2 initial.threads;
  calls = initial.calls;
}

one_job-Reachable : Reachable linux one_job
one_job-Reachable = Reachable.next at_start (Step.start morning initial)

Reachable-OneJob_example : OneJob linux one_job
Reachable-OneJob_example = Reachable-OneJob linux one_job one_job-Reachable

abbrev begun_job : System
begun_job = record {
  manager = (begin_job morning 1 one_job.manager).0;
  threads = advanced 1 (begin_job morning 1 one_job.manager).1;
  calls = [];
}

persist_observed_topics_atomic_example :
    ((persist_observed_topics works (codes "a" ∷ []) no_files).0.main ≡ no_files.main)
      × ((persist_observed_topics works (codes "a" ∷ []) no_files).1 ≢ none)
    ⊎ ((persist_observed_topics works (codes "a" ∷ []) no_files).0.main
        ≡ some (unlines (codes "a" ∷ [])))
      × ((persist_observed_topics works (codes "a" ∷ []) no_files).1 ≡ none)
persist_observed_topics_atomic_example =
    persist_observed_topics_atomic works (codes "a" ∷ []) no_files
