-- ===== src/HttpServer/Chi/Timeout/Answer.antt =====
-- What the client gets of a request with a deadline, and that the request ends.
use devkit_go.Prelude.{◌≡◌, ◌⊎◌, ◌≤◌, inl, inr, refl, arith, Bool, true, false, List, [], ◌∷◌}
use devkit_go.HttpServer.Chi.Calls.{Call}
use devkit_go.HttpServer.Chi.Timeout.{
  Race, new_race, Waiter, draining, ended, raised, Event, called, finished, received, deadline,
  answered, drained, step, steps, expire,
}

abbrev pub is_over : Waiter → Bool
is_over ended = true
is_over (raised p) = true
is_over _ = false

-- Whatever the handler did and does, the request is over when its deadline has passed, its answer is
-- written and its time to drain has passed.
steps-over :
    (timeout : List Call) (cleans : Bool) (s : Race)
    → is_over (steps timeout cleans (deadline ∷ answered ∷ drained ∷ []) s).waiter ≡ true
unfolding steps step expire
steps-over timeout cleans s = ground arith

abbrev is_draining : Waiter → Bool
is_draining draining = true
is_draining _ = false

-- No leak is counted yet, and the request drains only where there is a time for it; or one is.
abbrev IsCounted : Bool → Race → Type 0
IsCounted cleans s =
    ((s.leaks ≡ 0) × ((cleans ≡ true) ⊎ (is_draining s.waiter ≡ false)))
    ⊎ ((s.leaks ≡ 1) × (s.waiter ≡ ended) × (cleans ≡ true))

module _ (timeout : List Call) (cleans : Bool) where
  step-IsCounted :
      (e : Event) (s : Race) → IsCounted cleans s → IsCounted cleans (step timeout cleans e s)
  unfolding step expire
  step-IsCounted (called c) s h = ground arith
  step-IsCounted (finished o) s h = ground arith
  step-IsCounted received s h = ground arith
  step-IsCounted deadline s h = ground arith
  step-IsCounted answered s h = ground arith
  step-IsCounted drained s h = ground arith

  steps-IsCounted :
      (events : List Event) (s : Race)
      → IsCounted cleans s
      → IsCounted cleans (steps timeout cleans events s)
  unfolding steps
  steps-IsCounted [] s h = h
  steps-IsCounted (e ∷ events) s h =
      steps-IsCounted events (step timeout cleans e s) (step-IsCounted e s h)

-- Whatever happened to a request, it is over when its deadline has passed, its answer is written and its
-- time to drain has passed; and a leak is counted at most once, only where there is such a time, and
-- only when the request then ends without a panic.
pub steps-settled :
    (timeout : List Call) (cleans : Bool) (events : List Event)
    → let before = steps timeout cleans events new_race in
      let after = steps timeout cleans (deadline ∷ answered ∷ drained ∷ []) before in
      (is_over after.waiter ≡ true)
      × (after.leaks ≤ 1)
      × ((after.leaks ≡ 0) ⊎ ((cleans ≡ true) × (after.waiter ≡ ended)))
steps-settled timeout cleans events =
    let before = steps timeout cleans events new_race in
    let counted = steps-IsCounted timeout cleans events new_race (inl (refl, inr refl)) in
    let still =
      steps-IsCounted timeout cleans (deadline ∷ answered ∷ drained ∷ []) before counted in
    let over = steps-over timeout cleans before in ground arith
