-- ===== src/Worker/Scheduling.antt =====
-- The jobs that `Start` of pkg/worker/job/scheduler.go gives to package cron: what happens when the
-- schedule of a job fires while it runs.
use devkit_go.Prelude.{
  ℕ, zero, suc, ◌+◌, ◌-◌, ◌≤◌, ◌≡◌, refl, arith, Bool, true, false, List, [], ◌∷◌, if◌then◌else◌,
}
use devkit_go.Worker.{OverlapPolicy, overlap_skip, overlap_allow}

-- `runs` is how many executions go on, `begun` and `skipped` how often the schedule fired.
pub record JobRun : Type 0 where
  pub in_flight : Bool
  pub runs : ℕ
  pub begun : ℕ
  pub skipped : ℕ

abbrev pub quiet : JobRun
quiet = record { in_flight = false; runs = 0; begun = 0; skipped = 0 }

pub data Event : Type 0 where
  fired finished : Event

abbrev pub begin_run : JobRun → JobRun
begin_run r = record r { runs = suc r.runs; begun = suc r.begun }

-- The function of the schedule, for each policy.
unfoldable pub fire : OverlapPolicy → JobRun → JobRun
fire overlap_allow r = begin_run r
fire overlap_skip r =
    if r.in_flight
    then record r { skipped = suc r.skipped }
    else begin_run (record r { in_flight = true })

-- An execution returns; nothing happens when none goes on.
unfoldable pub finish : OverlapPolicy → JobRun → JobRun
finish overlap_allow r = record r { runs = r.runs - 1 }
finish overlap_skip r = elim r.runs [ zero ↦ r | suc n ↦ record r { in_flight = false; runs = n } ]

unfoldable pub run_events : OverlapPolicy → List Event → JobRun → JobRun
run_events policy [] r = r
run_events policy (fired ∷ es) r = run_events policy es (fire policy r)
run_events policy (finished ∷ es) r = run_events policy es (finish policy r)

unfoldable pub count_fired : List Event → ℕ
count_fired [] = 0
count_fired (fired ∷ es) = suc (count_fired es)
count_fired (finished ∷ es) = count_fired es

exclusive_from :
    (es : List Event) (r : JobRun)
    → r.runs ≡ (if r.in_flight then 1 else 0)
    → let end = run_events overlap_skip es r in
      (end.runs ≡ (if end.in_flight then 1 else 0))
      × (end.begun + end.skipped ≡ r.begun + r.skipped + count_fired es)
unfolding run_events fire finish count_fired
exclusive_from [] r h = ground arith
exclusive_from (fired ∷ es) r h = ground (arith, exclusive_from es (fire overlap_skip r))
exclusive_from (finished ∷ es) r h = ground (arith, exclusive_from es (finish overlap_skip r))

-- With the policy that skips, at most one execution goes on, the flag tells whether one does, and
-- every time that the schedule fired an execution was begun or skipped.
pub run_events-exclusive :
    (es : List Event)
    → let end = run_events overlap_skip es quiet in
      (end.runs ≤ 1)
      × (end.runs ≡ (if end.in_flight then 1 else 0))
      × (end.begun + end.skipped ≡ count_fired es)
run_events-exclusive es =
    let (one, all) = exclusive_from es quiet refl in (ground (arith, one), one, omega (arith, all))
