-- ===== src/Worker.antt =====
-- pkg/worker: the manager of jobs and consumers, the scheduler of jobs and the runner of a consumer.
pub mod Lifecycle
pub mod Counting
pub mod Scheduling
pub mod Consumer
mod Tests
use devkit_go.Prelude.{
  ℕ, zero, suc, ◌+◌, ◌≡◌, Bool, true, false, Option, none, some, List, [], ◌∷◌, ◌++◌, if◌then◌else◌,
  map, Result, ok, err, panic, ◌>>=◌,
}
use devkit_go.Prelude.Text.{Text, text_eq, text_mem}

-- pkg/worker/errors.go, ErrSchedulerStarted of job/scheduler.go, and errors of the jobs' schedules
-- and of the consumers.
pub data Error : Type 0 where
  duplicate_name : Text → Error
  stop_timeout already_started scheduler_started : Error
  external : ℕ → Error

-- pkg/worker/job/types.go
pub data OverlapPolicy : Type 0 where
  overlap_skip overlap_allow : OverlapPolicy

-- What the scheduler keeps of a job.
pub record Job : Type 0 where
  pub name : Text
  pub schedule : Text
  pub policy : OverlapPolicy

-- `NewAdapter` and `NewAdapterWithPolicy` of pkg/worker/job/adapter.go.
abbrev pub new_adapter_with_policy : Text → Text → OverlapPolicy → Job
new_adapter_with_policy name schedule policy = record {
  name = name;
  schedule = schedule;
  policy = policy;
}

abbrev pub new_adapter : Text → Text → Job
new_adapter name schedule = new_adapter_with_policy name schedule overlap_skip

-- `Scheduler` of pkg/worker/job/scheduler.go, before it runs.
pub record Scheduler : Type 0 where
  pub started : Bool
  pub jobs : List Job

abbrev pub new_scheduler : Scheduler
new_scheduler = record { started = false; jobs = [] }

-- `validate` is the parser of package cron.
unfoldable pub register : (Text → Option Error) → Job → Scheduler → Result Error Scheduler
register validate j s = if s.started then err scheduler_started else elim (validate j.schedule) [
  | some e ↦ err e
  | none ↦ ok (record s { jobs = s.jobs ++ (j ∷ []) })
]

-- The loop of `Start` over the jobs.
unfoldable pub register_all : (Text → Option Error) → List Job → Scheduler → Result Error Scheduler
register_all validate [] s = ok s
register_all validate (j ∷ js) s = do s' ← register validate j s; register_all validate js s'

pub data State : Type 0 where
  idle running stopping stopped : State

-- `Manager` of pkg/worker/manager.go; a consumer is its name. `launched` and `ended` count how often
-- the scheduler and the consumers were started and the consumers were stopped.
pub record Manager : Type 0 where
  pub jobs : List Job
  pub consumers : List Text
  pub scheduler : Option Scheduler
  pub state : State
  pub launched : ℕ
  pub ended : ℕ

-- `cfg` holds a timeout only.
unfoldable pub shutdown_timeout : ℕ → ℕ
shutdown_timeout zero = 30000000000
shutdown_timeout (suc n) = suc n

abbrev pub new_manager : List Job → List Text → Manager
new_manager jobs consumers = record {
  jobs = jobs;
  consumers = consumers;
  scheduler = none;
  state = idle;
  launched = 0;
  ended = 0;
}

-- One of the loops of `validateNames`, with the names that are seen.
unfoldable pub check_names : List Text → List Text → Result Error (List Text)
check_names [] seen = ok seen
check_names (n ∷ ns) seen =
    let rest = check_names ns (n ∷ seen) in if text_mem n seen then err (duplicate_name n) else rest

unfoldable pub validate_names : Manager → Result Error (List Text)
validate_names m = do seen ← check_names (map (λ j. j.name) m.jobs) []; check_names m.consumers seen

abbrev pub is_idle : State → Bool
is_idle idle = true
is_idle _ = false

abbrev pub is_running : State → Bool
is_running running = true
is_running _ = false

-- `Start`, under its lock; an error leaves the state at idle.
unfoldable pub start : (Text → Option Error) → Manager → Option Error × Manager
start validate m =
    if is_idle m.state
    then elim (do seen ← validate_names m; register_all validate m.jobs new_scheduler) [
      | ok s ↦ (none, record m { scheduler = some s; state = running; launched = suc m.launched })
      | err e ↦ (some e, m)
      | panic ↦ (none, m)
    ]
    else (some already_started, m)

-- The compare-and-swap at the beginning of `Stop`.
unfoldable pub begin_stop : Manager → Bool × Manager
begin_stop m = if is_running m.state then (true, record m { state = stopping }) else (false, m)

-- The rest of `Stop`, when the consumers have answered: `answers` are their errors, and `late` tells
-- whether the time ran out first.
abbrev pub end_stop : List Error → Bool → Manager → List Error × Manager
end_stop answers late m = (
  (if late then answers ++ (stop_timeout ∷ []) else answers),
  record m { state = stopped; ended = suc m.ended },
)

unfoldable pub stop : List Error → Bool → Manager → List Error × Manager
stop answers late m =
    let (mine, m') = begin_stop m in if mine then end_stop answers late m' else ([], m')
