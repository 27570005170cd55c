-- ===== src/Database/Manager/Draining.antt =====
-- `Shutdown` of pkg/database/manager/manager.go gets past the wait for the open transactions.
use devkit_go.Prelude.{ℕ, zero, suc, ◌<◌, ◌≡◌, ◌⊎◌, inl, inr, refl, arith, Bool, true, ok}
use devkit_go.Database.Manager.{DbManager, leave_tx}
use devkit_go.Database.Manager.Shutdown.{
  TxPhase, fresh, entering, opened, ended, draining, closing, System, set_at, Step, begin_failed,
  finish, drained, init, Reach, here, next, open_txs, open_txs-set_at, IsValid, Step-IsValid,
  Reach-IsValid, leaves,
}

step_first : {n : ℕ} {s t u : System} → Step n s t → Reach n t u → Reach n s u
step_first st here = next here st
step_first st (next r st') = next (step_first st r) st'

-- A transaction that counts.
find_open :
    (n : ℕ) (f : ℕ → TxPhase)
    → 0 < open_txs n f
    → (i : ℕ) × (i < n) × ((f i ≡ entering) ⊎ (f i ≡ opened))
unfolding open_txs
find_open zero f h = absurd (omega arith)
find_open (suc n) f h = found (f n) refl (λ more. find_open n f more)
  where
    found :
        (x : TxPhase)
        → f n ≡ x
        → (0 < open_txs n f → (i : ℕ) × (i < n) × ((f i ≡ entering) ⊎ (f i ≡ opened)))
        → (i : ℕ) × (i < suc n) × ((f i ≡ entering) ⊎ (f i ≡ opened))
    found entering e below = (n, omega arith, inl e)
    found opened e below = (n, omega arith, inr e)
    found fresh e below = let (i, lt, o) = below (ground arith) in (i, omega arith, o)
    found ended e below = let (i, lt, o) = below (ground arith) in (i, omega arith, o)

-- The end of an open transaction, or of the attempt to begin one.
end_one :
    {n : ℕ} (s : System) (i : ℕ) {m : DbManager}
    → i < n
    → (s.txs i ≡ entering) ⊎ (s.txs i ≡ opened)
    → leave_tx s.manager ≡ ok m
    → Step n s (record s { manager = m; txs = set_at s.txs i ended })
end_one s i lt (inl e) h = begin_failed i lt e h
end_one s i lt (inr e) h = finish i lt e h

drain :
    (n k : ℕ) (s : System)
    → open_txs n s.txs ≡ k
    → IsValid n s
    → s.phase ≡ draining
    → (t : System) × Reach n s t × (t.phase ≡ closing) × (t.adapter_closed ≡ true)
drain n zero s e v d = (_, next here (drained d (omega (arith, v.counted))), refl, refl)
drain n (suc k) s e v d =
    let (i, lt, o) = find_open n s.txs (omega arith) in
    let (m, left, less) = leaves s.manager (omega (arith, v.counted)) in
    let s' = record s { manager = m; txs = set_at s.txs i ended } in
    let st = end_one s i lt o left in
    let (t, r, c, a) =
      drain n k s' (ground (arith, open_txs-set_at n i s.txs ended)) (Step-IsValid st v) d in
    (t, step_first st r, c, a)

-- From every reachable state in which the shutdown waits for transactions there is a way on in which
-- it stops waiting and closes the adapter: the open transactions end.
pub can_drain :
    {n : ℕ} (read_only : Bool) {s : System}
    → Reach n (init read_only) s
    → s.phase ≡ draining
    → (t : System) × Reach n s t × (t.phase ≡ closing) × (t.adapter_closed ≡ true)
can_drain {n} read_only {s} r d = drain n (open_txs n s.txs) s refl (Reach-IsValid read_only r) d
