-- ===== src/Database/Manager.antt =====
-- pkg/database/manager/manager.go: the part of `dbManager` that counts transactions and shuts down.
-- The driver behind the adapter is a parameter; instrumentation and logging are left out.
pub mod Shutdown
pub mod Draining
mod Tests
use devkit_go.Prelude.{
  ℕ, zero, suc, Bool, true, false, ◌||◌, Option, none, some, if◌then◌else◌, Result, ok, err, panic,
  ◌>>=◌,
}
use devkit_go.Database.{Error, manager_closed}

-- `dbManager`: `active` is the counter of the wait group.
pub record DbManager : Type 0 where
  pub closed : Bool
  pub active : ℕ
  pub read_only : Bool

-- database.TxOptions, with the isolation level as a number.
pub record TxOptions : Type 0 where
  pub isolation : ℕ
  pub read_only : Bool

-- `trackedTx`: whether `done` has run.
pub record TrackedTx : Type 0 where
  pub done : Bool

-- Under the read lock of `BeginTx`: the check and `activeTx.Add(1)`.
unfoldable pub enter_tx : DbManager → Result Error DbManager
enter_tx m = if m.closed then err manager_closed else ok (record m { active = suc m.active })

-- `activeTx.Done()`, which panics when the counter would become negative.
unfoldable pub leave_tx : DbManager → Result Error DbManager
leave_tx m = elim m.active [ zero ↦ panic | suc n ↦ ok (record m { active = n }) ]

unfoldable pub effective_options : DbManager → TxOptions → TxOptions
effective_options m opts = if m.read_only then record opts { read_only = true } else opts

-- Behind the lock, on the answer of the adapter.
abbrev pub on_begun : DbManager → Option Error → Result Error TrackedTx × DbManager
on_begun m none = (ok (record { done = false }), m)
on_begun m (some e) = elim (leave_tx m) [
  | ok m' ↦ (err e, m')
  | err e' ↦ (err e', m)
  | panic ↦ (panic, m)
]

unfoldable pub begin_tx :
    (TxOptions → Option Error) → DbManager → TxOptions → Result Error TrackedTx × DbManager
begin_tx adapter m opts = elim (enter_tx m) [
  | ok m' ↦ on_begun m' (adapter (effective_options m' opts))
  | err e ↦ (err e, m)
  | panic ↦ (panic, m)
]

-- `t.done.Do(t.wg.Done)`: it has run also when `Done` panics.
unfoldable pub done_once : TrackedTx → DbManager → Result Error (Unit {0}) × TrackedTx × DbManager
done_once t m = if t.done then (ok tt, t, m) else elim (leave_tx m) [
  | ok m' ↦ (ok tt, record { done = true }, m')
  | err e ↦ (err e, t, m)
  | panic ↦ (panic, record { done = true }, m)
]

-- `return err`, with the driver's answer.
abbrev pub answered : Option Error → Result Error (Unit {0}) → Result Error (Unit {0})
answered none r = r
answered (some e) (ok done) = err e
answered (some e) r = r

-- `Commit` and `Rollback`, on the answer of the driver.
unfoldable pub commit :
    Option Error → TrackedTx → DbManager → Result Error (Unit {0}) × TrackedTx × DbManager
commit answer t m = let (r, t', m') = done_once t m in (answered answer r, t', m')

unfoldable pub rollback :
    Option Error → TrackedTx → DbManager → Result Error (Unit {0}) × TrackedTx × DbManager
rollback answer t m = let (r, t', m') = done_once t m in (answered answer r, t', m')

-- What `DBTX` gives: the transaction in the context, if there is one.
pub data Handle : Type 0 where
  context_tx closed_dbtx pool_dbtx : Handle

unfoldable pub dbtx : Bool → DbManager → Handle
dbtx in_context m =
    if in_context
    then Handle.context_tx
    else if m.closed
    then Handle.closed_dbtx
    else Handle.pool_dbtx

unfoldable pub ping : Option Error → DbManager → Option Error
ping answer m = if m.closed then some manager_closed else answer

-- Under the lock of `Shutdown`.
unfoldable pub close_manager : DbManager → DbManager
close_manager m = record m { closed = true }
