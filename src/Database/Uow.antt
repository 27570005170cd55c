-- ===== src/Database/Uow.antt =====
-- pkg/database/uow/uow.go and options.go: the unit of work. The driver's answers and the caller's
-- function are parameters, of the world they meet; spans, timers and logs are left out. A panic is a
-- result, without its value.
pub mod Ending
pub mod Accepting
mod Tests
use devkit_go.Prelude.{
  ℕ, zero, suc, ◌==◌, Bool, true, false, Option, none, some, List, [], ◌∷◌, if◌then◌else◌, Result,
  ok, err, panic,
}
use devkit_go.Database.{Error, nested_transaction}
use devkit_go.Database.Manager.{DbManager, TxOptions, TrackedTx, begin_tx, commit, rollback}

-- A call that reaches the transaction of the driver.
pub data Call : Type 0 where
  commit_call rollback_call : Call

-- `active_ids` is the map of the guard; `calls`, the newest first, is what the driver has been asked.
pub record World : Type 0 where
  pub manager : DbManager
  pub active_ids : ℕ → Bool
  pub calls : List Call
  pub committed : ℕ
  pub rolled_back : ℕ

pub record Driver : Type 0 where
  pub begin_answer : World → TxOptions → Option Error
  pub commit_answer : World → Option Error
  pub rollback_answer : World → Option Error

abbrev pub set_id : (ℕ → Bool) → ℕ → Bool → ℕ → Bool
set_id f i x j = if j == i then x else f j

-- `Enter` and `Leave` of the guard, for the goroutine `gid`.
unfoldable pub enter : ℕ → World → Bool × World
enter gid w =
    if w.active_ids gid
    then (false, w)
    else (true, record w { active_ids = set_id w.active_ids gid true })

abbrev pub leave : ℕ → World → World
leave gid w = record w { active_ids = set_id w.active_ids gid false }

-- The options of `New` or of one call.
abbrev pub UowOption : Type 0
UowOption = TxOptions → TxOptions

abbrev pub default_options : TxOptions
default_options = record { isolation = 0; read_only = false }

abbrev pub with_isolation : ℕ → UowOption
with_isolation level opts = record opts { isolation = level }

abbrev pub with_read_only : Bool → UowOption
with_read_only value opts = record opts { read_only = value }

unfoldable pub apply_options : TxOptions → List UowOption → TxOptions
apply_options opts [] = opts
apply_options opts (opt ∷ rest) = apply_options (opt opts) rest

unfoldable pub commit_tx : Driver → TrackedTx → World → Result Error (Unit {0}) × TrackedTx × World
commit_tx d t w =
    let (r, t', m) = commit (d.commit_answer w) t w.manager in
    (r, t', record w { manager = m; calls = commit_call ∷ w.calls })

unfoldable pub rollback_with_fresh_context :
    Driver → TrackedTx → World → Result Error (Unit {0}) × TrackedTx × World
rollback_with_fresh_context d t w =
    let (r, t', m) = rollback (d.rollback_answer w) t w.manager in
    (r, t', record w { manager = m; calls = rollback_call ∷ w.calls })

abbrev pub count_commit : World → World
count_commit w = record w { committed = suc w.committed }

abbrev pub count_rollback : World → World
count_rollback w = record w { rolled_back = suc w.rolled_back }

module _ {ℓ} {T : Type ℓ} (d : Driver) where
  -- The deferred function that recovers, rolls back and panics again.
  unfoldable pub on_panic : TrackedTx → World → Result Error T × World
  on_panic t w =
      let (r, t', w') = rollback_with_fresh_context d t w in
      elim r [
        | ok done ↦ (panic, count_rollback w')
        | err e ↦ (panic, count_rollback w')
        | panic ↦ (panic, w')
      ]

  -- A rollback whose own error is only recorded, before `problem` is returned.
  unfoldable pub roll_back_for : Error → TrackedTx → World → Result Error T × World
  roll_back_for problem t w =
      let (r, t', w') = rollback_with_fresh_context d t w in
      elim r [
        | ok done ↦ (err problem, count_rollback w')
        | err e ↦ (err problem, count_rollback w')
        | panic ↦ on_panic t' w'
      ]

  -- From the answer of the caller's function on.
  unfoldable pub settle : TrackedTx → Result Error T → World → Result Error T × World
  settle t panic w = on_panic t w
  settle t (err e) w = roll_back_for e t w
  settle t (ok value) w =
      let (r, t', w') = commit_tx d t w in
      elim r [
        | ok done ↦ (ok value, count_commit w')
        | err e ↦ roll_back_for e t' w'
        | panic ↦ on_panic t' w'
      ]

  -- `Do` behind the guard; `in_context` tells whether the context holds a transaction.
  unfoldable pub run_tx :
      Bool
      → TxOptions
      → List UowOption
      → (World → Result Error T × World)
      → World
      → Result Error T × World
  run_tx in_context base opts fn w =
      let (begun, m) = begin_tx (d.begin_answer w) w.manager (apply_options base opts) in
      let w' = record w { manager = m } in
      if in_context then (err nested_transaction, w) else elim begun [
        | ok t ↦ settle t (fn w').0 (fn w').1
        | err e ↦ (err e, w')
        | panic ↦ (panic, w')
      ]

  unfoldable pub do_uow :
      ℕ
      → Bool
      → TxOptions
      → List UowOption
      → (World → Result Error T × World)
      → World
      → Result Error T × World
  do_uow gid in_context base opts fn w =
      let (entered, w') = enter gid w in
      if entered
      then (let (r, after) = run_tx in_context base opts fn w' in (r, leave gid after))
      else (err nested_transaction, w)
