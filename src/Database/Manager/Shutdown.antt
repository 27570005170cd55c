-- ===== src/Database/Manager/Shutdown.antt =====
-- `BeginTx`, the ends of transactions and `Shutdown` of pkg/database/manager/manager.go, interleaved
-- in any order.
use devkit_go.Prelude.{
  ℕ, zero, suc, ◌+◌, ◌<◌, ◌≤◌, ◌≡◌, ◌⊎◌, inl, inr, refl, arith, Bool, true, false, ◌==◌, ==_iff,
  Option, none, some, Bool-cases, if◌then◌else◌, Result, ok, err, panic,
}
use devkit_go.Database.{Error, shutdown_timeout, manager_closed}
use devkit_go.Database.Manager.{DbManager, enter_tx, leave_tx, close_manager}

-- Where a transaction stands: `entering` is between the check of `BeginTx` and the adapter's answer.
pub data TxPhase : Type 0 where
  fresh entering opened ended : TxPhase

-- Where the one call of `shutdown.Do` stands.
pub data Phase : Type 0 where
  idle draining closing finished : Phase

pub record System : Type 0 where
  pub manager : DbManager
  pub txs : ℕ → TxPhase
  pub phase : Phase
  pub scraper_stopped : Bool
  pub adapter_closed : Bool
  pub shutdown_error : Option Error

abbrev pub set_at : (ℕ → TxPhase) → ℕ → TxPhase → ℕ → TxPhase
set_at f i x j = if j == i then x else f j

-- One step of one of `n` transactions, or of the shutdown.
pub data Step (n : ℕ) (s : System) : System → Type 0 where
  enter :
      (i : ℕ) {m : DbManager}
      → i < n
      → s.txs i ≡ fresh
      → enter_tx s.manager ≡ ok m
      → Step n s (record s { manager = m; txs = set_at s.txs i entering })
  begin_failed :
      (i : ℕ) {m : DbManager}
      → i < n
      → s.txs i ≡ entering
      → leave_tx s.manager ≡ ok m
      → Step n s (record s { manager = m; txs = set_at s.txs i ended })
  begun : (i : ℕ) → i < n → s.txs i ≡ entering → Step n s (record s { txs = set_at s.txs i opened })
  finish :
      (i : ℕ) {m : DbManager}
      → i < n
      → s.txs i ≡ opened
      → leave_tx s.manager ≡ ok m
      → Step n s (record s { manager = m; txs = set_at s.txs i ended })
  close :
      s.phase ≡ idle → Step n s (record s { manager = close_manager s.manager; phase = draining })
  drain_timeout :
      s.phase ≡ draining
      → Step n s (record s { phase = finished; shutdown_error = some shutdown_timeout })
  drained :
      s.phase ≡ draining
      → s.manager.active ≡ 0
      → Step n s (record s { phase = closing; scraper_stopped = true; adapter_closed = true })
  close_timeout :
      s.phase ≡ closing
      → Step n s (record s { phase = finished; shutdown_error = some shutdown_timeout })
  adapter_answers :
      (answer : Option Error)
      → s.phase ≡ closing
      → Step n s (record s { phase = finished; shutdown_error = answer })

abbrev pub init : Bool → System
init read_only = record {
  manager = record { closed = false; active = 0; read_only = read_only };
  txs = λ i. fresh;
  phase = idle;
  scraper_stopped = false;
  adapter_closed = false;
  shutdown_error = none;
}

pub data Reach (n : ℕ) (s : System) : System → Type 0 where
  here : Reach n s s
  next : {t u : System} → Reach n s t → Step n t u → Reach n s u

-- A transaction that counts.
abbrev pub weight : TxPhase → ℕ
weight entering = 1
weight opened = 1
weight _ = 0

unfoldable pub open_txs : ℕ → (ℕ → TxPhase) → ℕ
open_txs zero f = 0
open_txs (suc n) f = weight (f n) + open_txs n f

open_txs-outside :
    (n i : ℕ) (f : ℕ → TxPhase) (x : TxPhase) → n < suc i → open_txs n (set_at f i x) ≡ open_txs n f
unfolding open_txs
open_txs-outside zero i f x h = refl
open_txs-outside (suc n) i f x h = ground (arith, open_txs-outside n i f x)

pub open_txs-set_at :
    (n i : ℕ) (f : ℕ → TxPhase) (x : TxPhase)
    → i < n
    → open_txs n (set_at f i x) + weight (f i) ≡ open_txs n f + weight x
unfolding open_txs
open_txs-set_at zero i f x h = absurd (omega arith)
open_txs-set_at (suc n) i f x h = elim (Bool-cases (n == i)) [
  | inl last ↦ rw ((==_iff n i).0 last) (ground (arith, open_txs-outside i i f x))
  | inr before ↦ ground (arith, open_txs-set_at n i f x)
]

-- What holds in every reachable state.
pub record IsValid (n : ℕ) (s : System) : Type 0 where
  pub counted : s.manager.active ≡ open_txs n s.txs
  pub shut : (s.phase ≡ idle) ⊎ (s.manager.closed ≡ true)
  pub released :
      (s.adapter_closed ≡ false)
      ⊎ ((s.manager.closed ≡ true) × (s.manager.active ≡ 0) × (s.scraper_stopped ≡ true))

pub Step-IsValid : {n : ℕ} {s t : System} → Step n s t → IsValid n s → IsValid n t
unfolding enter_tx leave_tx close_manager
Step-IsValid {n} {s} (enter i lt e h) v = ground (arith, open_txs-set_at n i s.txs entering)
Step-IsValid {n} {s} (begin_failed i lt e h) v = ground (arith, open_txs-set_at n i s.txs ended)
Step-IsValid {n} {s} (begun i lt e) v = ground (arith, open_txs-set_at n i s.txs opened)
Step-IsValid {n} {s} (finish i lt e h) v = ground (arith, open_txs-set_at n i s.txs ended)
Step-IsValid (close e) v = ground arith
Step-IsValid (drain_timeout e) v = ground arith
Step-IsValid (drained e h) v = ground arith
Step-IsValid (close_timeout e) v = ground arith
Step-IsValid (adapter_answers answer e) v = ground arith

open_txs-fresh : (n : ℕ) → 0 ≡ open_txs n (λ i. fresh)
unfolding open_txs
open_txs-fresh zero = refl
open_txs-fresh (suc n) = omega (arith, open_txs-fresh n)

-- A counter above 0 can go down.
pub leaves :
    (m : DbManager)
    → 0 < m.active
    → (m' : DbManager) × (leave_tx m ≡ ok m') × (suc m'.active ≡ m.active)
unfolding leave_tx
leaves m h = leaves_at m.active refl h
  where
    leaves_at :
        (n : ℕ)
        → m.active ≡ n
        → 0 < n
        → (m' : DbManager) × ◌≡◌ {A = Result Error DbManager}
            (elim n [ zero ↦ panic | suc k ↦ ok (record m { active = k }) ])
            (ok m')
          × (suc m'.active ≡ n)
    leaves_at zero e h = absurd (omega arith)
    leaves_at (suc n) e h = (record m { active = n }, refl, refl)

pub Reach-IsValid :
    {n : ℕ} (read_only : Bool) {s : System} → Reach n (init read_only) s → IsValid n s
Reach-IsValid {n} read_only here = record {
  counted = open_txs-fresh n;
  shut = inl refl;
  released = inl refl;
}
Reach-IsValid read_only (next r st) = Step-IsValid st (Reach-IsValid read_only r)

pub weight-le-open_txs : (n i : ℕ) (f : ℕ → TxPhase) → i < n → weight (f i) ≤ open_txs n f
unfolding open_txs
weight-le-open_txs zero i f h = absurd (omega arith)
weight-le-open_txs (suc n) i f h = elim (Bool-cases (i == n)) [
  | inl last ↦ rw ((==_iff i n).0 last) (omega arith)
  | inr before ↦ ground (arith, weight-le-open_txs n i f)
]

-- Once the adapter is closed, no transaction below `n` is open or being begun, the scraper is
-- stopped, and none can be begun any more.
pub adapter_closed_safe :
    {n : ℕ} (read_only : Bool) {s : System} (i : ℕ)
    → Reach n (init read_only) s
    → s.adapter_closed ≡ true
    → i < n
    → ((s.txs i ≡ fresh) ⊎ (s.txs i ≡ ended))
      × (s.scraper_stopped ≡ true)
      × (enter_tx s.manager ≡ err manager_closed)
unfolding enter_tx
adapter_closed_safe {n} read_only {s} i r closed lt =
    let v = Reach-IsValid read_only r in
    ground (arith, v.counted, v.released, weight-le-open_txs n i s.txs)

-- The wait group never panics: while a transaction is open or being begun, it can leave.
pub leave_tx-ok :
    {n : ℕ} (read_only : Bool) {s : System} (i : ℕ)
    → Reach n (init read_only) s
    → i < n
    → (s.txs i ≡ entering) ⊎ (s.txs i ≡ opened)
    → (m : DbManager) × (leave_tx s.manager ≡ ok m) × (suc m.active ≡ s.manager.active)
leave_tx-ok {n} read_only {s} i r lt h =
    leaves s.manager
      (ground (arith, (Reach-IsValid read_only r).counted, weight-le-open_txs n i s.txs))
