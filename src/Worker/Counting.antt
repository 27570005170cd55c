-- ===== src/Worker/Counting.antt =====
-- Any sequence of calls of `Start` and `Stop` of pkg/worker/manager.go.
use devkit_go.Prelude.{
  ℕ, ◌≡◌, inl, inr, refl, arith, Bool, true, false, Option, List, [], ◌∷◌, if◌then◌else◌,
}
use devkit_go.Prelude.Text.{Text}
use devkit_go.Worker.{
  Error, Job, State, idle, stopping, stopped, Manager, start, begin_stop, end_stop, new_manager,
}
use devkit_go.Worker.Lifecycle.{start-cases}

-- A call, or the end of a `Stop` that has begun.
pub data Op : Type 0 where
  start_op begin_stop_op : Op
  end_stop_op : List Error → Bool → Op

abbrev pub is_stopping : State → Bool
is_stopping stopping = true
is_stopping _ = false

unfoldable pub run_op : (Text → Option Error) → Op → Manager → Manager
run_op validate start_op m = (start validate m).1
run_op validate begin_stop_op m = (begin_stop m).1
run_op validate (end_stop_op answers late) m =
    if is_stopping m.state then (end_stop answers late m).1 else m

unfoldable pub run_ops : (Text → Option Error) → List Op → Manager → Manager
run_ops validate [] m = m
run_ops validate (op ∷ ops) m = run_ops validate ops (run_op validate op m)

-- How often the consumers are started and stopped in a state.
abbrev pub starts_in : State → ℕ
starts_in idle = 0
starts_in _ = 1

abbrev pub stops_in : State → ℕ
stops_in stopped = 1
stops_in _ = 0

abbrev pub IsCounted : Manager → Type 0
IsCounted m = (m.launched ≡ starts_in m.state) × (m.ended ≡ stops_in m.state)

run_op-IsCounted :
    (validate : Text → Option Error) (op : Op) (m : Manager)
    → IsCounted m
    → IsCounted (run_op validate op m)
unfolding run_op begin_stop
run_op-IsCounted validate start_op m v = elim (start-cases validate m) [
  | inl e ↦ ground arith
  | inr (i, s, e) ↦ ground arith
]
run_op-IsCounted validate begin_stop_op m v = ground arith
run_op-IsCounted validate (end_stop_op answers late) m v = ground arith

run_ops-IsCounted_from :
    (validate : Text → Option Error) (ops : List Op) (m : Manager)
    → IsCounted m
    → IsCounted (run_ops validate ops m)
unfolding run_ops
run_ops-IsCounted_from validate [] m v = v
run_ops-IsCounted_from validate (op ∷ ops) m v =
    run_ops-IsCounted_from validate ops _ (run_op-IsCounted validate op m v)

-- Whatever calls are made, jobs and consumers are started once the manager has left its idle state
-- and never again, and stopped once when it is stopped.
pub run_ops-IsCounted :
    (validate : Text → Option Error) (ops : List Op) (jobs : List Job) (consumers : List Text)
    → IsCounted (run_ops validate ops (new_manager jobs consumers))
run_ops-IsCounted validate ops jobs consumers =
    run_ops-IsCounted_from validate ops (new_manager jobs consumers) (refl, refl)
