-- ===== src/Worker/Tests.antt =====
-- Runs of the parts of the worker.
use devkit_go.Prelude.{
  ◌+◌, ◌≤◌, ◌≡◌, ◌↔◌, refl, true, Option, none, some, List, [], ◌∷◌, if◌then◌else◌, All, ok,
}
use devkit_go.Prelude.Text.{Text, codes}
use devkit_go.Worker.{
  Error, Job, new_adapter, State, idle, Manager, start, new_manager, overlap_skip,
}
use devkit_go.Worker.Lifecycle.{AreNew, IsScheduled, all_names, start_iff}
use devkit_go.Worker.Counting.{
  IsCounted, start_op, begin_stop_op, end_stop_op, run_ops, run_ops-IsCounted,
}
use devkit_go.Worker.Scheduling.{
  fired, finished, quiet, run_events, count_fired, run_events-exclusive,
}
use devkit_go.Worker.Consumer.{
  Message, Registration, Registry, RegistryError, unknown_event_type, set_handler, new_registry,
  new_runner, dispatch, find_registration, new_runner-dispatches,
}

abbrev any_schedule : Text → Option Error
any_schedule s = none

abbrev two_jobs : Manager
two_jobs =
    new_manager (new_adapter (codes "a") [] ∷ new_adapter (codes "b") [] ∷ []) (codes "a" ∷ [])

start_iff_example : ((start any_schedule two_jobs).0 ≡ none) ↔ (
    (two_jobs.state ≡ idle)
    × AreNew (all_names two_jobs) []
    × All (IsScheduled any_schedule) two_jobs.jobs)
start_iff_example = start_iff any_schedule two_jobs

run_ops-IsCounted_example : IsCounted (
    run_ops any_schedule
      (start_op ∷ start_op ∷ begin_stop_op ∷ end_stop_op [] true ∷ [])
      (new_manager [] (codes "a" ∷ [])))
run_ops-IsCounted_example =
    run_ops-IsCounted any_schedule (start_op ∷ start_op ∷ begin_stop_op ∷ end_stop_op [] true ∷ [])
      [] (codes "a" ∷ [])

run_events-exclusive_example :
    let end = run_events overlap_skip (fired ∷ fired ∷ finished ∷ fired ∷ []) quiet in
    (end.runs ≤ 1)
    × (end.runs ≡ (if end.in_flight then 1 else 0))
    × (end.begun + end.skipped ≡ count_fired (fired ∷ fired ∷ finished ∷ fired ∷ []))
run_events-exclusive_example = run_events-exclusive (fired ∷ fired ∷ finished ∷ fired ∷ [])

abbrev one : List Registration
one = record { event_type = codes "e"; handler = some (λ m. none) } ∷ []

abbrev registry : Registry
registry = set_handler new_registry (codes "e") (λ m. none)

is_made : new_runner one ≡ ok registry
unfolding new_runner devkit_go.Worker.Consumer.register_all devkit_go.Worker.Consumer.register
is_made = refl
