-- ===== src/Database/Uow/Ending.antt =====
-- How `Do` of pkg/database/uow/uow.go ends a transaction, whatever the caller's function does.
use devkit_go.Prelude.{
  ℕ, suc, ◌+◌, ◌≡◌, ap, sym, subst, refl, arith, true, false, Option, none, some, List, [], ◌∷◌,
  ◌++◌, Result, ok, err, panic,
}
use devkit_go.Database.{Error}
use devkit_go.Database.Manager.{
  DbManager, TxOptions, TrackedTx, answered, enter_tx, leave_tx, effective_options, begin_tx,
  done_once, commit, rollback,
}
use devkit_go.Database.Uow.{
  Call, commit_call, rollback_call, World, Driver, commit_tx, rollback_with_fresh_context, on_panic,
  roll_back_for, settle, count_commit,
}

-- What is expected: the function's value only when the driver commits, the first problem otherwise.
pub expected_result {ℓ} : {T : Type ℓ} → Result Error T → Option Error → Result Error T
expected_result (ok value) none = ok value
expected_result (ok value) (some e) = err e
expected_result (err e) answer = err e
expected_result panic answer = panic

-- The calls of the driver, the newest first.
pub expected_calls {ℓ} : {T : Type ℓ} → Result Error T → Option Error → List Call
expected_calls (ok value) none = commit_call ∷ []
expected_calls (ok value) (some e) = rollback_call ∷ commit_call ∷ []
expected_calls (err e) answer = rollback_call ∷ []
expected_calls panic answer = rollback_call ∷ []

-- 1 when the transaction is committed.
pub expected_commits {ℓ} : {T : Type ℓ} → Result Error T → Option Error → ℕ
expected_commits (ok value) none = 1
expected_commits r answer = 0

pub begin_tx-ok :
    (adapter : TxOptions → Option Error) (m : DbManager) (opts : TxOptions) {t : TrackedTx}
    {m' : DbManager}
    → begin_tx adapter m opts ≡ (ok t, m')
    → (t.done ≡ false) × (m'.active ≡ suc m.active)
unfolding begin_tx enter_tx leave_tx effective_options
begin_tx-ok adapter m opts h = ground arith

-- A world in which `suc n` transactions are open.
abbrev with_open : World → ℕ → World
with_open w n = record w { manager = record w.manager { active = n } }

-- What `settle` leaves of a world `w`, for an answer `r` of the caller's function.
pub record IsSettled {ℓ} {T : Type ℓ} (answer : Option Error) (w : World) (r : Result Error T)
    (after : Result Error T × World) : Type ℓ where
  pub result : after.0 ≡ expected_result r answer
  pub asked : after.1.calls ≡ expected_calls r answer ++ w.calls
  pub ended : suc after.1.manager.active ≡ w.manager.active
  pub same_ids : after.1.active_ids ≡ w.active_ids
  pub counted : after.1.committed ≡ expected_commits r answer + w.committed
  pub counted_once : after.1.committed + after.1.rolled_back ≡ suc (w.committed + w.rolled_back)

-- The error of a rollback does not matter.
either_way {ℓ} :
    {A : Type ℓ} (answer : Option Error) (x y : A)
    → elim (answered answer (ok tt)) [ ok done ↦ x | err e ↦ x | panic ↦ y ] ≡ x
either_way none x y = refl
either_way (some e) x y = refl

abbrev rolled_back_world : World → ℕ → World
rolled_back_world w n = record (with_open w n) {
  calls = rollback_call ∷ w.calls;
  rolled_back = suc w.rolled_back;
}

module _ {ℓ} {T : Type ℓ} (d : Driver) (w : World) (n : ℕ) where
  on_panic-open :
      on_panic {T = T} d (record { done = false }) (with_open w (suc n))
      ≡ (panic, rolled_back_world w n)
  unfolding on_panic rollback_with_fresh_context rollback done_once leave_tx
  on_panic-open = either_way (d.rollback_answer (with_open w (suc n))) _ _

  roll_back_for-open :
      (problem : Error)
      → roll_back_for {T = T} d problem (record { done = false }) (with_open w (suc n))
        ≡ (err problem, rolled_back_world w n)
  unfolding roll_back_for rollback_with_fresh_context rollback done_once leave_tx
  roll_back_for-open problem = either_way (d.rollback_answer (with_open w (suc n))) _ _

-- After a failed commit the transaction is done, and a rollback ends nothing more.
roll_back_for-done {ℓ} :
    {T : Type ℓ} (d : Driver) (w : World) (problem : Error)
    → roll_back_for {T = T} d problem (record { done = true }) w
      ≡ (err problem, record w { calls = rollback_call ∷ w.calls; rolled_back = suc w.rolled_back })
unfolding roll_back_for rollback_with_fresh_context rollback done_once leave_tx
roll_back_for-done d w problem = either_way (d.rollback_answer w) _ _

settle_open {ℓ} :
    {T : Type ℓ} (d : Driver) (w : World) (n : ℕ) (r : Result Error T)
    → IsSettled
        (d.commit_answer (with_open w (suc n)))
        (with_open w (suc n))
        r
        (settle d (record { done = false }) r (with_open w (suc n)))
unfolding settle commit_tx commit done_once leave_tx expected_result expected_calls expected_commits
settle_open d w n panic = rw (on_panic-open d w n) (record {
  result = refl;
  asked = refl;
  ended = refl;
  same_ids = refl;
  counted = omega arith;
  counted_once = omega arith;
})
settle_open d w n (err e) = rw (roll_back_for-open d w n e) (record {
  result = refl;
  asked = refl;
  ended = refl;
  same_ids = refl;
  counted = omega arith;
  counted_once = omega arith;
})
settle_open {T} d w n (ok v) = after_commit (d.commit_answer (with_open w (suc n)))
  where
    committed_world : World
    committed_world = record (with_open w n) { calls = commit_call ∷ w.calls }

    after_commit :
        (answer : Option Error)
        → IsSettled {T = T} answer (with_open w (suc n)) (ok v) (elim (answered answer (ok tt)) [
          | ok done ↦ (ok v, count_commit committed_world)
          | err e ↦ roll_back_for d e (record { done = true }) committed_world
          | panic ↦ on_panic d (record { done = true }) committed_world
        ])
    after_commit none = record {
      result = refl;
      asked = refl;
      ended = refl;
      same_ids = refl;
      counted = omega arith;
      counted_once = omega arith;
    }
    after_commit (some e) = rw (roll_back_for-done {T = T} d committed_world e) (record {
      result = refl;
      asked = refl;
      ended = refl;
      same_ids = refl;
      counted = omega arith;
      counted_once = omega arith;
    })

pub settle-IsSettled {ℓ} :
    {T : Type ℓ} (d : Driver) (t : TrackedTx) (w : World) (n : ℕ) (r : Result Error T)
    → t.done ≡ false
    → w.manager.active ≡ suc n
    → IsSettled (d.commit_answer w) w r (settle d t r w)
settle-IsSettled d t w n r fresh e =
    let tx : t ≡ record { done = false } = ap (λ b. record { done = b }) fresh in
    let world : w ≡ with_open w (suc n) = ap (λ k. with_open w k) e in
    subst (λ v. IsSettled (d.commit_answer v) v r (settle d t r v)) (sym world)
      (subst
        (λ u.
          IsSettled (d.commit_answer (with_open w (suc n))) (with_open w (suc n)) r
            (settle d u r (with_open w (suc n))))
        (sym tx) (settle_open d w n r))
