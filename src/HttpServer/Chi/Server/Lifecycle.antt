-- ===== src/HttpServer/Chi/Server/Lifecycle.antt =====
-- pkg/http_server/chi_server/lifecycle.go. A function gives the error of net/http's Shutdown, or that of the
-- telemetry, for a context that is done already or is not; `none` for a telemetry that has no Shutdown.
-- Joined errors are a list.
use devkit_go.Prelude.{
  ◌≡◌, ◌⊎◌, inl, inr, sym, subst, arith, Option-cases, refl, ap, Bool, true, false, Option, none,
  some, List, [], ◌∷◌, ◌++◌, if◌then◌else◌, All,
}

-- What is shut down, in order.
pub data Closed : Type 0 where
  server_closed provider_closed : Closed

pub record State : Type 0 where
  pub shutdown_once : Bool
  pub log : List Closed

-- What Start waits for.
pub data Wake (E : Type 0) : Type 0 where
  serving_failed : E → Wake E
  context_done signal_received : Wake E

abbrev pub list_of {ℓ} : {A : Type ℓ} → Option A → List A
list_of none = []
list_of (some a) = a ∷ []

-- Two errors, where there are any, in order.
abbrev pub IsReport {ℓ} : {A : Type ℓ} → Option A → Option A → List A → Type ℓ
IsReport none none errors = errors ≡ []
IsReport none (some b) errors = errors ≡ b ∷ []
IsReport (some a) none errors = errors ≡ a ∷ []
IsReport (some a) (some b) errors = errors ≡ a ∷ b ∷ []

list_of-IsReport {ℓ} :
    {A : Type ℓ} (first second : Option A) → IsReport first second (list_of first ++ list_of second)
list_of-IsReport none none = refl
list_of-IsReport none (some b) = refl
list_of-IsReport (some a) none = refl
list_of-IsReport (some a) (some b) = refl

-- Is the context of the shutdown done already?
abbrev pub IsDoneBy : {E : Type 0} → Wake E → Bool → Type 0
IsDoneBy (serving_failed e) done = ⊥
IsDoneBy context_done done = done ≡ true
IsDoneBy signal_received done = done ≡ false

module _ {E : Type 0} (http_shutdown : Bool → Option E) (provider : Option (Bool → Option E)) where
  abbrev pub shutdown_provider : Bool → List E
  shutdown_provider done = elim provider [ none ↦ [] | some close ↦ list_of (close done) ]

  abbrev pub closings : List Closed
  closings = elim provider [
    | none ↦ server_closed ∷ []
    | some close ↦ server_closed ∷ provider_closed ∷ []
  ]

  unfoldable pub shutdown : Bool → State → List E × State
  shutdown done s = if s.shutdown_once then ([], s) else (
    list_of (http_shutdown done) ++ shutdown_provider done,
    record { shutdown_once = true; log = s.log ++ closings },
  )

  -- The context of the shutdown is made from the one of Start, so it is done if that one is.
  unfoldable pub start : Wake E → State → List E × State
  start (serving_failed e) s = (e ∷ [], s)
  start context_done s = shutdown true s
  start signal_received s = shutdown false s

  unfoldable pub shutdown_all : List Bool → State → List (List E) × State
  shutdown_all [] s = ([], s)
  shutdown_all (done ∷ calls) s =
      let (errors, after) = shutdown done s in
      let (later, last) = shutdown_all calls after in (errors ∷ later, last)

  abbrev closed_with : List Closed → State
  closed_with log = record { shutdown_once = true; log = log }

  shutdown_all-done :
      (calls : List Bool) (log : List Closed)
      → ((shutdown_all calls (closed_with log)).1 ≡ closed_with log)
        × All (λ errors. errors ≡ []) (shutdown_all calls (closed_with log)).0
  unfolding shutdown_all shutdown
  shutdown_all-done [] log = (refl, tt)
  shutdown_all-done (done ∷ calls) log =
      let (same, silent) = shutdown_all-done calls log in (same, (refl, silent))

  abbrev pub new_state : State
  new_state = record { shutdown_once = false; log = [] }

  -- What Shutdown closed and returned: the server, then the telemetry if it can be closed, with the
  -- errors of both in that order.
  abbrev pub IsClosed : Bool → List Closed → List E → Type 0
  IsClosed done log errors =
      ((provider ≡ none) × (log ≡ server_closed ∷ []) × IsReport (http_shutdown done) none errors)
      ⊎ ((close : Bool → Option E) × (provider ≡ some close)
          × (log ≡ server_closed ∷ provider_closed ∷ [])
          × IsReport (http_shutdown done) (close done) errors)

  shutdown-IsClosed :
      (done : Bool)
      → IsClosed done closings (list_of (http_shutdown done) ++ shutdown_provider done)
  shutdown-IsClosed done = elim (Option-cases provider) [
    | inl missing ↦
        inl (
          missing,
          ground (arith, missing),
          rw missing (list_of-IsReport (http_shutdown done) none),
        )
    | inr (close, given) ↦ inr (
      close,
      given,
      ground (arith, given),
      rw given (list_of-IsReport (http_shutdown done) (close done)),
    )
  ]

  -- On a new server the first call of Shutdown, or Start when its context is done or a signal comes, shuts
  -- the server and then the telemetry down and gives the errors of both in that order; every call of
  -- Shutdown behind it does nothing and gives none.
  pub start-once :
      (w : Wake E) (done : Bool) (calls : List Bool)
      → IsDoneBy w done
      → let (errors, after) = start w new_state in
        IsClosed done after.log errors
        × (shutdown done new_state ≡ start w new_state)
        × ((shutdown_all calls after).1 ≡ after)
        × All (λ e. e ≡ []) (shutdown_all calls after).0
  unfolding start shutdown
  start-once (serving_failed e) done calls h = absurd h
  start-once context_done done calls h =
      let (same, silent) = shutdown_all-done calls closings in
      (
        subst (λ d. IsClosed d closings (list_of (http_shutdown true) ++ shutdown_provider true))
            (sym h) (shutdown-IsClosed true),
        ap (λ d. shutdown d new_state) h,
        same,
        silent,
      )
  start-once signal_received done calls h =
      let (same, silent) = shutdown_all-done calls closings in
      (
        subst (λ d. IsClosed d closings (list_of (http_shutdown false) ++ shutdown_provider false))
            (sym h) (shutdown-IsClosed false),
        ap (λ d. shutdown d new_state) h,
        same,
        silent,
      )
