-- ===== src/Jobs/Commands.antt =====
-- Runs of the job methods of crates/tracedb-query/src/lib.rs.
use tracedb.Base.{ℕ, Text, Bool, Option, List, [], ◌∷◌, refl}
use tracedb.Jobs.Job.{JobKind, WorkerId}
use tracedb.Jobs.Valid.{default-IsValid}
use tracedb.Jobs.Engine.{
  JobLog, empty_log, enqueue_job, lease_job, heartbeat_job, complete_job, fail_job, replay_from,
}
use tracedb.Jobs.Replay.{
  IsDurable, enqueue_job-IsDurable, lease_job-IsDurable, Step-IsDurable, heartbeat_job-Step,
  complete_job-Step, fail_job-Step,
}

-- A call of one of the job methods.
pub data Command : Type 0 where
  enqueue_command : JobKind → Text → Text → Command
  lease_command : WorkerId → JobKind → ℕ → ℕ → Command
  heartbeat_command : Text → Text → ℕ → ℕ → Command
  complete_command : Text → Text → Command
  fail_command : Text → Option Text → Text → Bool → ℕ → Command

abbrev pub perform : Command → JobLog → JobLog
perform (enqueue_command kind target key) s = (enqueue_job kind target key s).1
perform (lease_command worker_id kind now_ms lease_ms) s =
    (lease_job worker_id kind now_ms lease_ms s).1
perform (heartbeat_command job_id token now_ms lease_ms) s =
    (heartbeat_job job_id token now_ms lease_ms s).1
perform (complete_command job_id token) s = (complete_job job_id token s).1
perform (fail_command job_id token error permanent now_ms) s =
    (fail_job job_id token error permanent now_ms s).1

abbrev pub perform_all : List Command → JobLog → JobLog
perform_all [] s = s
perform_all (command ∷ commands) s = perform_all commands (perform command s)

perform-IsDurable : (command : Command) (s : JobLog) → IsDurable s → IsDurable (perform command s)
perform-IsDurable (enqueue_command kind target key) s h = enqueue_job-IsDurable kind target key s h
perform-IsDurable (lease_command worker_id kind now_ms lease_ms) s h =
    lease_job-IsDurable worker_id kind now_ms lease_ms s h
perform-IsDurable (heartbeat_command job_id token now_ms lease_ms) s h =
    Step-IsDurable _ s _ h (heartbeat_job-Step job_id s h token now_ms lease_ms)
perform-IsDurable (complete_command job_id token) s h =
    Step-IsDurable _ s _ h (complete_job-Step job_id s h token)
perform-IsDurable (fail_command job_id token error permanent now_ms) s h =
    Step-IsDurable _ s _ h (fail_job-Step job_id s h token error permanent now_ms)

pub perform_all-IsDurable :
    (commands : List Command) (s : JobLog) → IsDurable s → IsDurable (perform_all commands s)
perform_all-IsDurable [] s h = h
perform_all-IsDurable (command ∷ commands) s h =
    perform_all-IsDurable commands (perform command s) (perform-IsDurable command s h)

pub empty_log-IsDurable : IsDurable empty_log
unfolding replay_from
empty_log-IsDurable = record { replays = refl; valid = default-IsValid }
