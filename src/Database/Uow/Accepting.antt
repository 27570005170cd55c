-- ===== src/Database/Uow/Accepting.antt =====
-- Which calls of `Do` of pkg/database/uow/uow.go reach the caller's function, and what the others do.
use devkit_go.Prelude.{
  ℕ, suc, ◌+◌, ◌≡◌, refl, arith, Bool, true, false, Option, none, some, List, ◌++◌, if◌then◌else◌,
  Result, err,
}
use devkit_go.Database.{Error, nested_transaction, manager_closed}
use devkit_go.Database.Manager.{TxOptions, enter_tx, leave_tx, effective_options, begin_tx}
use devkit_go.Database.Uow.{
  World, Driver, set_id, enter, leave, UowOption, apply_options, settle, run_tx, do_uow,
}
use devkit_go.Database.Uow.Ending.{
  expected_result, expected_calls, expected_commits, settle-IsSettled,
}

abbrev pub entered_world : ℕ → World → World
entered_world gid w = record w { active_ids = set_id w.active_ids gid true }

-- The world that the caller's function meets.
abbrev pub started_world : ℕ → World → World
started_world gid w = record (entered_world gid w) {
  manager = record w.manager { active = suc w.manager.active };
}

-- Why a call is refused, if it is.
abbrev pub refusal : Driver → ℕ → Bool → TxOptions → List UowOption → World → Option Error
refusal d gid in_context base opts w =
    if w.active_ids gid
    then some nested_transaction
    else if in_context
    then some nested_transaction
    else if w.manager.closed
    then some manager_closed
    else d.begin_answer (entered_world gid w) (
        effective_options (record w.manager { active = suc w.manager.active })
          (apply_options base opts))

module _ {ℓ} {T : Type ℓ} (d : Driver) (gid : ℕ) (in_context : Bool) (base : TxOptions)
    (opts : List UowOption) (fn : World → Result Error T × World) (w : World) where
  started :
      refusal d gid in_context base opts w ≡ none
      → do_uow d gid in_context base opts fn w ≡ (
          let s = fn (started_world gid w) in
          let u = settle d (record { done = false }) s.0 s.1 in (u.0, leave gid u.1))
  unfolding do_uow enter run_tx begin_tx enter_tx leave_tx
  started h = ground arith

  -- A call that is refused does not ask the driver's transaction for anything, leaves the manager and the
  -- guard as they were, and gives the reason.
  pub do_uow-refused :
      (j : ℕ) {problem : Error}
      → refusal d gid in_context base opts w ≡ some problem
      → ((do_uow d gid in_context base opts fn w).0 ≡ err problem)
        × ((do_uow d gid in_context base opts fn w).1.calls ≡ w.calls)
        × ((do_uow d gid in_context base opts fn w).1.manager ≡ w.manager)
        × ((do_uow d gid in_context base opts fn w).1.active_ids j ≡ w.active_ids j)
  unfolding do_uow enter run_tx begin_tx enter_tx leave_tx
  do_uow-refused j h = ground arith

  -- A call that is accepted ends its transaction once.
  pub do_uow-ends :
      refusal d gid in_context base opts w ≡ none
      → (fn (started_world gid w)).1.manager.active ≡ suc w.manager.active
      → let s = fn (started_world gid w) in
        let answer = d.commit_answer s.1 in
        let after = do_uow d gid in_context base opts fn w in
        (after.0 ≡ expected_result s.0 answer)
        × (after.1.calls ≡ expected_calls s.0 answer ++ s.1.calls)
        × (after.1.manager.active ≡ w.manager.active)
        × (after.1.active_ids gid ≡ false)
        × (after.1.committed ≡ expected_commits s.0 answer + s.1.committed)
        × (after.1.committed + after.1.rolled_back ≡ suc (s.1.committed + s.1.rolled_back))
  do_uow-ends h balanced =
      let s = fn (started_world gid w) in
      let v = settle-IsSettled d (record { done = false }) s.1 w.manager.active s.0 refl balanced in
      rw (started h)
        (v.result, v.asked, omega (arith, v.ended), ground arith, v.counted, v.counted_once)

-- In the same goroutine, a call within the caller's function is refused, and changes nothing.
pub do_uow-nested {ℓ} :
    {T : Type ℓ} (d : Driver) (gid : ℕ) (in_context inner_context : Bool)
    (base inner_base : TxOptions) (opts inner_opts : List UowOption)
    (fn : World → Result Error T × World) (w : World)
    → do_uow d gid in_context base opts (do_uow d gid inner_context inner_base inner_opts fn) w
      ≡ do_uow d gid in_context base opts (λ v. (err nested_transaction, v)) w
unfolding do_uow enter run_tx begin_tx enter_tx leave_tx
do_uow-nested d gid in_context inner_context base inner_base opts inner_opts fn w = ground arith
