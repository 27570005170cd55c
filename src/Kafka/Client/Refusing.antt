-- ===== src/Kafka/Client/Refusing.antt =====
-- What a client answers to its callers, in every order of steps.
use devkit_go.Prelude.{
  ◌≡◌, ◌⊎◌, inl, inr, refl, arith, Bool, true, false, none, some, List, [], ◌∷◌, length, ◌≤◌,
}
use devkit_go.Kafka.Client.{
  Client, client_closed, connect_refusal, use_refusal, health_refusal, is_connected, Event,
  connect_called, connect_ended, close_called, conn_closed, health_failed, reconnect_started,
  attempt_started, attempt_ended, attempts_over, worker_stopped, new_client_state, step, steps,
  Closing, not_closing, flagged, finished,
}

abbrev has_conn : Client → Bool
has_conn c = elim (c.conn) [ none ↦ false | some n ↦ true ]

abbrev is_begun : Closing → Bool
is_begun not_closing = false
is_begun _ = true

abbrev is_flagged : Closing → Bool
is_flagged flagged = true
is_flagged _ = false

-- The flag tells whether Close was called; a client that is not closed and says that it is connected has
-- a connection; Close ends one connection at most.
abbrev IsSound : Client → Type 0
IsSound c =
    (c.closed ≡ is_begun c.closing)
    × ((c.closed ≡ true) ⊎ ((c.connected ≡ false) ⊎ (has_conn c ≡ true)))
    × ((c.ended ≡ []) ⊎ ((length c.ended ≡ 1) × (c.closing ≡ finished)))

module _ (reconnects : Bool) where
  step-IsSound : (e : Event) (c : Client) → IsSound c → IsSound (step reconnects e c)
  unfolding step connect_refusal
  step-IsSound connect_called c h = ground arith
  step-IsSound (connect_ended true) c h = ground arith
  step-IsSound (connect_ended false) c h = ground arith
  step-IsSound close_called c h = ground arith
  step-IsSound conn_closed c h = ground arith
  step-IsSound health_failed c h = ground arith
  step-IsSound reconnect_started c h = ground arith
  step-IsSound attempt_started c h = ground arith
  step-IsSound (attempt_ended true) c h = ground arith
  step-IsSound (attempt_ended false) c h = ground arith
  step-IsSound attempts_over c h = ground arith
  step-IsSound worker_stopped c h = ground arith

  steps-IsSound :
      (events : List Event) (c : Client) → IsSound c → IsSound (steps reconnects events c)
  unfolding steps
  steps-IsSound [] c h = h
  steps-IsSound (e ∷ events) c h = steps-IsSound events (step reconnects e c) (step-IsSound e c h)

  -- Nothing opens a closed client again.
  step-closed : (e : Event) (c : Client) → c.closed ≡ true → (step reconnects e c).closed ≡ true
  unfolding step connect_refusal
  step-closed connect_called c h = ground arith
  step-closed (connect_ended true) c h = ground arith
  step-closed (connect_ended false) c h = ground arith
  step-closed close_called c h = ground arith
  step-closed conn_closed c h = ground arith
  step-closed health_failed c h = ground arith
  step-closed reconnect_started c h = ground arith
  step-closed attempt_started c h = ground arith
  step-closed (attempt_ended true) c h = ground arith
  step-closed (attempt_ended false) c h = ground arith
  step-closed attempts_over c h = ground arith
  step-closed worker_stopped c h = ground arith

  steps-closed :
      (events : List Event) (c : Client)
      → c.closed ≡ true
      → (steps reconnects events c).closed ≡ true
  unfolding steps
  steps-closed [] c h = h
  steps-closed (e ∷ events) c h = steps-closed events (step reconnects e c) (step-closed e c h)

  close_called-closed : (c : Client) → IsSound c → (step reconnects close_called c).closed ≡ true
  unfolding step
  close_called-closed c h = ground arith

  closed_refused :
      (c : Client)
      → c.closed ≡ true
      → (connect_refusal c ≡ some client_closed)
        × (use_refusal c ≡ some client_closed)
        × (health_refusal c ≡ some client_closed)
        × (is_connected c ≡ false)
  unfolding connect_refusal use_refusal health_refusal is_connected
  closed_refused c h = ground arith

  -- Once Close was called, whatever steps come before and after, every call is refused because the
  -- client is closed, it never says that it is connected, and Close ended one connection at most.
  pub steps-refused :
      (before after : List Event)
      → let c =
          steps reconnects after
            (step reconnects close_called (steps reconnects before new_client_state)) in
        ((connect_refusal c ≡ some client_closed)
          × (use_refusal c ≡ some client_closed)
          × (health_refusal c ≡ some client_closed)
          × (is_connected c ≡ false))
        × (length c.ended ≤ 1)
  steps-refused before after =
      let first = steps reconnects before new_client_state in
      let sound = steps-IsSound before new_client_state (refl, inr (inl refl), inl refl) in
      let closing = step reconnects close_called first in
      let last = steps-IsSound after closing (step-IsSound close_called first sound) in
      (
        closed_refused (steps reconnects after closing)
            (steps-closed after closing (close_called-closed first sound)),
        ground arith,
      )

  -- In every order of steps a client that says that it is connected has a connection, so its producers,
  -- consumers and health checks are not refused.
  pub steps-usable :
      (events : List Event)
      → let c = steps reconnects events new_client_state in
        (is_connected c ≡ false) ⊎ ((use_refusal c ≡ none) × (health_refusal c ≡ none))
  unfolding use_refusal health_refusal is_connected
  steps-usable events =
      let sound = steps-IsSound events new_client_state (refl, inr (inl refl), inl refl) in
      ground arith
