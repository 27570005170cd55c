-- ===== src/Release/Service/Safety.antt =====
-- The calls that planning, publishing and a run of scripts/ci_release/app/service.go and main.go make.
use devkit_go.Prelude.{
  ◌≡◌, ◌≢◌, ◌⊎◌, inl, inr, refl, sym, ◌∙◌, ap, subst, Bool, false, List, [], ◌∷◌, ◌++◌,
  append_assoc, append-nil, Option, arith, All, All-append, Result, ok, err, panic, Result-cases,
  Bool-cases,
}
use devkit_go.Prelude.Text.{Text, codes, text_eq, text_eq_iff}
use devkit_go.Release.{Error}
use devkit_go.Release.Version.{SemanticVersion}
use devkit_go.Release.Commit.{CommitDescriptor}
use devkit_go.Release.Candidate.{new_release_candidate, ReleaseCandidate, ChangelogSection}
use devkit_go.Release.Candidate.Guarantees.{IsReleasable, candidate_iff}
use devkit_go.Release.Service.{
  Ports, Call, validated, asked_latest_tag, asked_commits, resolved, read_section, asked_tag,
  pushed_tag, published, Action, ◌>>=◌, on_result, lift, call, PlanRequest, ReleasePlan,
  plan_release, ReleaseOutput, publish_release, publish_output, respond, run,
}

-- Calls that change nothing.
abbrev pub IsRead : Call → Type 0
IsRead (pushed_tag v) = ⊥
IsRead (published v notes) = ⊥
IsRead _ = Unit

-- An action that makes only such calls, and keeps the log before them.
record Reads {A : Type 0} (m : Action A) : Type 0 where
  at : (log : List Call) → (calls : List Call) × ((m log).1 ≡ log ++ calls) × All IsRead calls

lift-Reads : {A : Type 0} (r : Result Error A) → Reads (lift r)
unfolding lift
lift-Reads r = record { at = λ log. ([], sym (append-nil log), tt) }

call-Reads : {A : Type 0} (c : Call) (r : Result Error A) → IsRead c → Reads (call c r)
unfolding call
call-Reads c r h = record { at = λ log. (c ∷ [], refl, (h, tt)) }

on_result-Reads :
    {A B : Type 0} (r : Result Error A) (f : A → Action B)
    → ((a : A) → Reads (f a))
    → Reads (on_result f r)
on_result-Reads (ok a) f h = h a
on_result-Reads (err e) f h = record { at = λ log. ([], sym (append-nil log), tt) }
on_result-Reads panic f h = record { at = λ log. ([], sym (append-nil log), tt) }

>>=-Reads :
    {A B : Type 0} (m : Action A) (f : A → Action B)
    → Reads m
    → ((a : A) → Reads (f a))
    → Reads (m >>= f)
unfolding ◌>>=◌
>>=-Reads m f h k = record {
  at = λ log.
      let (xs, e, a) = h.at log in
      let (ys, e', a') = (on_result-Reads (m log).0 f k).at (m log).1 in
      (xs ++ ys, e' ∙ ap (λ l. l ++ ys) e ∙ append_assoc log xs ys, All-append IsRead xs ys a a');
}

plan_release-Reads : (ports : Ports) (request : PlanRequest) → Reads (plan_release ports request)
unfolding plan_release
plan_release-Reads ports request = >>=-Reads _ _ (lift-Reads _) λ _.
    >>=-Reads _ _ (call-Reads validated _ tt) λ _.
      >>=-Reads _ _ (call-Reads asked_latest_tag _ tt) λ base.
        >>=-Reads _ _ (call-Reads (asked_commits base) _ tt) λ commits.
          >>=-Reads _ _ (call-Reads resolved _ tt) λ next.
            >>=-Reads _ _ (call-Reads (read_section next) _ tt) λ notes.
              >>=-Reads _ _ (call-Reads (asked_tag next) _ tt)
                λ tag_exists. >>=-Reads _ _ (lift-Reads _) λ c. lift-Reads _

-- Planning makes only calls that change nothing, whatever they answer.
pub plan-Reads :
    (ports : Ports) (request : PlanRequest) (log : List Call)
    → (calls : List Call) × ((plan_release ports request log).1 ≡ log ++ calls) × All IsRead calls
plan-Reads ports request = (plan_release-Reads ports request).at

-- Inversion of a bind that succeeds.
on_result-ok :
    {A B : Type 0} (r : Result Error A) (f : A → Action B) (log : List Call) {b : B}
    → (on_result f r log).0 ≡ ok b
    → (a : A) × (r ≡ ok a) × ((f a log).0 ≡ ok b)
on_result-ok (ok a) f log h = (a, refl, h)
on_result-ok (err e) f log h = cc
on_result-ok panic f log h = cc

>>=-ok :
    {A B : Type 0} (m : Action A) (f : A → Action B) (log : List Call) {b : B}
    → ((m >>= f) log).0 ≡ ok b
    → (a : A) × ((m log).0 ≡ ok a) × ((f a (m log).1).0 ≡ ok b)
unfolding ◌>>=◌
>>=-ok m f log h = on_result-ok (m log).0 f (m log).1 h

-- What a plan rests on.
pub record IsPlanned (ports : Ports) (request : PlanRequest) (plan : ReleasePlan) : Type 0 where
  pub gates_validated : ports.validate request.workflow request.gate_status ≡ ok tt
  pub from_tag : ports.latest_tag ≡ ok plan.base_version
  pub from_commits : ports.commits_since plan.base_version ≡ ok plan.commits
  pub next_resolved :
      ports.resolve_next_version plan.base_version plan.commits ≡ ok plan.next_version
  pub notes_read :
      ports.read_version_section request.changelog_path plan.next_version ≡ ok plan.notes
  pub tag_free : ports.tag_exists plan.next_version ≡ ok false
  pub releasable :
      IsReleasable request.workflow.ref_name plan.base_version plan.next_version plan.notes
        request.gate_status false

planned :
    (ports : Ports) (request : PlanRequest) (v : Unit {0}) (base : Option SemanticVersion)
    (commits : List CommitDescriptor) (next : SemanticVersion) (notes : ChangelogSection)
    (tag_exists : Bool) (c : ReleaseCandidate) (bootstrap : Bool)
    → ports.validate request.workflow request.gate_status ≡ ok v
    → ports.latest_tag ≡ ok base
    → ports.commits_since base ≡ ok commits
    → ports.resolve_next_version base commits ≡ ok next
    → ports.read_version_section request.changelog_path next ≡ ok notes
    → ports.tag_exists next ≡ ok tag_exists
    → new_release_candidate request.workflow.ref_name base next notes request.gate_status tag_exists
      ≡ ok c
    → IsPlanned ports request (record {
      base_version = base;
      next_version = next;
      notes = notes;
      commits = commits;
      bootstrap = bootstrap;
    })
planned ports request v base commits next notes tag_exists c bootstrap e0 e1 e2 e3 e4 e5 made =
    let r =
      ((candidate_iff request.workflow.ref_name base next notes request.gate_status tag_exists c).0
        made).0 in
    record {
      gates_validated = e0;
      from_tag = e1;
      from_commits = e2;
      next_resolved = e3;
      notes_read = e4;
      tag_free = e5 ∙ ap ok r.fresh_tag;
      releasable =
          subst (IsReleasable request.workflow.ref_name base next notes request.gate_status)
            r.fresh_tag r;
    }

ok-injective : {A : Type 0} {a b : A} → ◌≡◌ {A = Result Error A} (ok a) (ok b) → a ≡ b
ok-injective h = cc

-- A plan that is made rests on the answers of the interfaces, and may be released.
pub plan-IsPlanned :
    (ports : Ports) (request : PlanRequest) (log : List Call) {plan : ReleasePlan}
    → (plan_release ports request log).0 ≡ ok plan
    → IsPlanned ports request plan
unfolding plan_release lift call
plan-IsPlanned ports request log {plan} h =
    let (u, _, h0) = >>=-ok _ _ log h in
    let (v, gates, h1) = >>=-ok _ _ _ h0 in
    let (base, from_tag, h2) = >>=-ok _ _ _ h1 in
    let (commits, from_commits, h3) = >>=-ok _ _ _ h2 in
    let (next, next_resolved, h4) = >>=-ok _ _ _ h3 in
    let (notes, notes_read, h5) = >>=-ok _ _ _ h4 in
    let (tag_exists, tag_free, h6) = >>=-ok _ _ _ h5 in
    let (c, made, h7) = >>=-ok _ _ _ h6 in
    subst (IsPlanned ports request) (ok-injective h7) (
      planned ports request v base commits next notes tag_exists c _ gates from_tag from_commits
        next_resolved notes_read tag_free made)

-- `PublishRelease` pushes the tag first, and publishes only if that succeeded.
pub publish_order :
    (ports : Ports) (plan : ReleasePlan) (log : List Call)
    → let calls = (publish_release ports plan log).1 in
      ((ports.create_and_push_tag plan.next_version ≡ ok tt)
        × (calls
            ≡ log ++ pushed_tag plan.next_version ∷ published plan.next_version plan.notes ∷ []))
      ⊎ ((ports.create_and_push_tag plan.next_version ≢ ok tt)
          × (calls ≡ log ++ pushed_tag plan.next_version ∷ []))
unfolding publish_release ◌>>=◌ lift call
publish_order ports plan log = ground (
  arith,
  Result-cases (ports.create_and_push_tag plan.next_version),
  Result-cases (ports.publish plan.next_version plan.notes),
  append_assoc log (pushed_tag plan.next_version ∷ [])
      (published plan.next_version plan.notes ∷ []),
)

publish_writes :
    (ports : Ports) (plan : ReleasePlan) (log : List Call)
    → (writes : List Call) × ((publish_release ports plan log).1
        ≡ log ++ pushed_tag plan.next_version ∷ writes)
publish_writes ports plan log = elim (publish_order ports plan log) [
  | inl (_, e) ↦ (published plan.next_version plan.notes ∷ [], e)
  | inr (_, e) ↦ ([], e)
]

-- What is returned behind `PublishRelease` makes no call.
written :
    (plan : ReleasePlan) (r : Result Error ReleaseOutput) (log : List Call)
    → (on_result (λ output. lift (ok (publish_output plan output))) r log).1 ≡ log
unfolding lift
written plan (ok output) log = refl
written plan (err e) log = refl
written plan panic log = refl

-- Behind a successful plan, the calls of the command.
respond-calls :
    (ports : Ports) (command : Text) (planned : Result Error ReleasePlan) (log : List Call)
    → ((respond ports command planned log).1 ≡ log)
      ⊎ ((command ≡ codes "publish")
          × (plan : ReleasePlan) × (planned ≡ ok plan)
          × ((respond ports command planned log).1 ≡ (publish_release ports plan log).1))
unfolding respond
respond-calls ports command panic log = inl refl
respond-calls ports command (err e) log = ground arith
respond-calls ports command (ok plan) log = elim (Bool-cases (text_eq command (codes "plan"))) [
  | inl planning ↦ inl (rw planning)
  | inr other ↦ elim (Bool-cases (text_eq command (codes "publish"))) [
    | inl publishing ↦
        let made = publish_release ports plan log in
        inr (
          (text_eq_iff command (codes "publish")).0 publishing,
          plan,
          refl,
          rw (other, publishing) (unfold ◌>>=◌ in written plan made.0 made.1),
        )
    | inr unknown ↦ inl (rw (other, unknown))
  ]
]

-- A run changes something only for the command `publish`, under a plan that may be released; then
-- it changes nothing before it pushes the tag of the plan.
pub run-safe :
    (ports : Ports) (command : Text) (request : PlanRequest)
    → All IsRead (run ports command request []).1
      ⊎ ((command ≡ codes "publish")
          × (plan : ReleasePlan) × IsPlanned ports request plan
          × (reads : List Call) × (writes : List Call) × All IsRead reads
          × ((run ports command request []).1 ≡ reads ++ pushed_tag plan.next_version ∷ writes))
unfolding run
run-safe ports command request =
    let (calls, e, reads) = plan-Reads ports request [] in
    elim (respond-calls ports command (plan_release ports request []).0
      (plan_release ports request []).1) [
        | inl same ↦ inl (rw (same, e) reads)
        | inr (is_publish, plan, made, same) ↦
            let (writes, w) = publish_writes ports plan (plan_release ports request []).1 in
            inr (
              is_publish,
              plan,
              plan-IsPlanned ports request [] {plan = plan} made,
              calls,
              writes,
              reads,
              same ∙ w ∙ ap (λ l. l ++ pushed_tag plan.next_version ∷ writes) e,
            )
      ]
