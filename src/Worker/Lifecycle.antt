-- ===== src/Worker/Lifecycle.antt =====
-- `Start` and `Stop` of pkg/worker/manager.go.
use devkit_go.Prelude.{
  suc, ◌≡◌, ◌≢◌, ◌⊎◌, ◌↔◌, inl, inr, refl, sym, ap, append_assoc, append-nil, arith, false, Option,
  none, some, List, [], ◌∷◌, ◌++◌, if◌then◌else◌, map, Result, ok, err, panic, ok_chain, All,
  Bool-cases, Option-cases, Result-cases, ◌>>=◌,
}
use devkit_go.Prelude.Text.{Text, text_mem}
use devkit_go.Worker.{
  Error, already_started, Job, Scheduler, new_scheduler, register, register_all, idle, running,
  Manager, check_names, validate_names, start, is_idle,
}

-- No text stands twice in the list, and none of them is among `seen`.
abbrev pub AreNew : List Text → List Text → Type 0
AreNew [] seen = Unit
AreNew (n ∷ ns) seen = (text_mem n seen ≡ false) × AreNew ns (n ∷ seen)

abbrev pub all_names : Manager → List Text
all_names m = map (λ j. j.name) m.jobs ++ m.consumers

check_names-ok :
    (ns seen : List Text) {final : List Text} → check_names ns seen ≡ ok final → AreNew ns seen
unfolding check_names
check_names-ok [] seen h = tt
check_names-ok (n ∷ ns) seen {final} h =
    ground (arith, check_names-ok ns (n ∷ seen) {final = final})

-- The loops of the jobs and of the consumers are one loop over all names.
check_names-append :
    (xs ys seen : List Text)
    → (do s ← check_names xs seen; check_names ys s) ≡ check_names (xs ++ ys) seen
unfolding check_names
check_names-append [] ys seen = refl
check_names-append (x ∷ xs) ys seen = elim (Bool-cases (text_mem x seen)) [
  | inl h ↦ ground arith
  | inr h ↦ ground (arith, check_names-append xs ys (x ∷ seen))
]

check_names-new :
    (ns seen : List Text) → AreNew ns seen → (final : List Text) × (check_names ns seen ≡ ok final)
unfolding check_names
check_names-new [] seen h = (seen, refl)
check_names-new (n ∷ ns) seen (fresh, h) =
    let (final, e) = check_names-new ns (n ∷ seen) h in (final, ground arith)

-- The schedule of the job is accepted.
abbrev pub IsScheduled : (Text → Option Error) → Job → Type 0
IsScheduled validate j = validate j.schedule ≡ none

abbrev scheduler_of : List Job → Scheduler
scheduler_of js = record { started = false; jobs = js }

register-cases :
    (validate : Text → Option Error) (j : Job) (js : List Job)
    → ((validate j.schedule ≡ none)
        × (register validate j (scheduler_of js) ≡ ok (scheduler_of (js ++ (j ∷ [])))))
      ⊎ ((e : Error) × (validate j.schedule ≡ some e)
          × (register validate j (scheduler_of js) ≡ err e))
unfolding register
register-cases validate j js = elim (Option-cases (validate j.schedule)) [
  | inl e ↦ inl (e, ground arith)
  | inr (x, e) ↦ inr (x, e, ground arith)
]

register_all-ok :
    (validate : Text → Option Error) (js before : List Job) {final : Scheduler}
    → register_all validate js (scheduler_of before) ≡ ok final
    → All (IsScheduled validate) js
unfolding register_all
register_all-ok validate [] before h = tt
register_all-ok validate (j ∷ js) before {final} h = elim (register-cases validate j before) [
  | inl (fine, e) ↦
      (fine, register_all-ok validate js (before ++ (j ∷ [])) {final = final} (ground arith))
  | inr (x, bad, e) ↦ absurd (ground arith)
]

register_all-scheduled :
    (validate : Text → Option Error) (js before : List Job)
    → All (IsScheduled validate) js
    → register_all validate js (scheduler_of before) ≡ ok (scheduler_of (before ++ js))
unfolding register_all
register_all-scheduled validate [] before h =
    ap (λ l. ok (scheduler_of l)) (sym (append-nil before))
register_all-scheduled validate (j ∷ js) before (fine, h) =
    elim (register-cases validate j before) [
      | inl (same, e) ↦
          let next = register_all-scheduled validate js (before ++ (j ∷ [])) h in
          ground (arith, e, next, append_assoc before (j ∷ []) js)
      | inr (x, bad, e) ↦ absurd (ground arith)
    ]

check_names-panic : (ns seen : List Text) → check_names ns seen ≢ panic
unfolding check_names
check_names-panic [] seen = λ h. absurd (ground arith)
check_names-panic (n ∷ ns) seen = λ h. ground (arith, check_names-panic ns (n ∷ seen))

register_all-panic :
    (validate : Text → Option Error) (js before : List Job)
    → register_all validate js (scheduler_of before) ≢ panic
unfolding register_all
register_all-panic validate [] before = λ h. absurd (ground arith)
register_all-panic validate (j ∷ js) before = λ h. elim (register-cases validate j before) [
  | inl (fine, e) ↦ ground (arith, register_all-panic validate js (before ++ (j ∷ [])))
  | inr (x, bad, e) ↦ absurd (ground arith)
]

-- The checks of `Start` behind its compare-and-swap.
abbrev checks : (Text → Option Error) → Manager → Result Error Scheduler
checks validate m =
    check_names (all_names m) [] >>= λ seen. register_all validate m.jobs new_scheduler

checks-ok :
    (validate : Text → Option Error) (m : Manager) {s : Scheduler}
    → checks validate m ≡ ok s
    → AreNew (all_names m) [] × All (IsScheduled validate) m.jobs
checks-ok validate m h =
    let (final, names, jobs) =
      ok_chain (check_names (all_names m) []) (λ seen. register_all validate m.jobs new_scheduler)
        h in
    (check_names-ok (all_names m) [] names, register_all-ok validate m.jobs [] jobs)

checks-panic : (validate : Text → Option Error) (m : Manager) → checks validate m ≢ panic
checks-panic validate m =
    λ h. ground (arith, check_names-panic (all_names m) [], register_all-panic validate m.jobs [])

abbrev outcome : (Text → Option Error) → Manager → Option Error × Manager
outcome validate m =
    if is_idle m.state
    then elim (checks validate m) [
      | ok s ↦ (none, record m { scheduler = some s; state = running; launched = suc m.launched })
      | err e ↦ (some e, m)
      | panic ↦ (none, m)
    ]
    else (some already_started, m)

start-checks :
    (validate : Text → Option Error) (m : Manager) → start validate m ≡ outcome validate m
unfolding start validate_names
start-checks validate m = rw (check_names-append (map (λ j. j.name) m.jobs) m.consumers []) refl

-- `Start` gives no error exactly when the manager is idle, no name stands twice among those of the
-- jobs and of the consumers, and every schedule is accepted.
pub start_iff :
    (validate : Text → Option Error) (m : Manager)
    → ((start validate m).0 ≡ none)
      ↔ ((m.state ≡ idle) × AreNew (all_names m) [] × All (IsScheduled validate) m.jobs)
start_iff validate m = rw (start-checks validate m) (started, starts)
  where
    started :
        (outcome validate m).0 ≡ none
        → (m.state ≡ idle) × AreNew (all_names m) [] × All (IsScheduled validate) m.jobs
    started h = elim (Result-cases (checks validate m)) [
      | inl (s, e) ↦ let (names, jobs) = checks-ok validate m e in (ground arith, names, jobs)
      | inr (inl (x, e)) ↦ absurd (ground arith)
      | inr (inr e) ↦ absurd (checks-panic validate m e)
    ]

    starts :
        (m.state ≡ idle) × AreNew (all_names m) [] × All (IsScheduled validate) m.jobs
        → (outcome validate m).0 ≡ none
    starts (i, names, jobs) =
        let (final, e) = check_names-new (all_names m) [] names in
        ground (arith, i, e, register_all-scheduled validate m.jobs [] jobs)

-- What `Start` can leave of a manager.
pub start-cases :
    (validate : Text → Option Error) (m : Manager)
    → ((start validate m).1 ≡ m)
      ⊎ ((m.state ≡ idle)
          × (s : Scheduler) × ((start validate m).1
              ≡ record m { scheduler = some s; state = running; launched = suc m.launched }))
start-cases validate m = rw (start-checks validate m) (elim (Bool-cases (is_idle m.state)) [
  | inl i ↦ elim (Result-cases (checks validate m)) [
    | inl (s, e) ↦ inr (ground arith, s, ground arith)
    | inr (inl (x, e)) ↦ inl (ground arith)
    | inr (inr e) ↦ inl (ground arith)
  ]
  | inr busy ↦ inl (ground arith)
])
