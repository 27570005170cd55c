-- ===== src/Rabbitmq/Connection/Watching.antt =====
-- Whether a lost connection is made again, in pkg/messaging/rabbitmq/connection.go.
use devkit_go.Prelude.{
  ℕ, ◌<◌, ◌≡◌, inl, inr, refl, arith, Bool, true, false, Option-cases, none, some, [], ◌∷◌, ok,
}
use devkit_go.Rabbitmq.Connection.{
  Context, ConnectionManager, set_at, is_done, connected, cancel_watcher, start_watcher, adopt,
  connect, trigger_reconnect, connection_lost, close_old_pool, attempt, end_reconnect,
  get_channel_pool,
}

-- A new cancel function makes no context done.
is_done-set_at :
    (cancelled : ℕ → Bool) (i : ℕ) (ctx : Context)
    → is_done cancelled ctx ≡ false
    → is_done (set_at cancelled i false) ctx ≡ false
unfolding is_done
is_done-set_at cancelled i [] h = refl
is_done-set_at cancelled i (j ∷ ctx) h = ground (arith, is_done-set_at cancelled i ctx)

abbrev first_state : Context → ConnectionManager → ConnectionManager
first_state ctx cm = start_watcher ctx (adopt cm)

connect-first_state :
    (ctx : Context) (cm : ConnectionManager)
    → cm.closed ≡ false
    → cm.is_connected ≡ false
    → cm.watcher ≡ none
    → (connect true connected ctx cm).1 ≡ first_state ctx cm
unfolding connect
connect-first_state ctx cm open_now free unwatched = ground arith

first_state-watching :
    (ctx : Context) (cm : ConnectionManager)
    → is_done cm.cancelled ctx ≡ false
    → (first_state ctx cm).watching ≡ some (cm.contexts ∷ ctx)
unfolding is_done
first_state-watching ctx cm fresh =
    ground (arith, is_done-set_at cm.cancelled cm.contexts ctx fresh)

-- The first connection is watched: its loss starts a reconnection in the watcher's context.
pub connect-watched :
    (ctx : Context) (cm : ConnectionManager)
    → cm.closed ≡ false
    → cm.is_connected ≡ false
    → cm.is_reconnecting ≡ false
    → cm.watcher ≡ none
    → is_done cm.cancelled ctx ≡ false
    → let after = (connect true connected ctx cm).1 in
      (get_channel_pool after ≡ ok (some cm.dialled))
      × ((connection_lost after).0 ≡ some (cm.contexts ∷ ctx))
      × ((connection_lost after).1.is_reconnecting ≡ true)
unfolding connection_lost trigger_reconnect get_channel_pool
connect-watched ctx cm open_now free idle unwatched fresh =
    let runs = first_state-watching ctx cm fresh in
    rw (connect-first_state ctx cm open_now free unwatched)
      (ground arith, ground (arith, runs), ground (arith, runs))

-- The state behind a successful attempt.
abbrev next_state : Context → ConnectionManager → ConnectionManager
next_state ctx cm = start_watcher ctx (cancel_watcher (adopt (close_old_pool cm)))

attempt-next_state :
    (ctx : Context) (cm : ConnectionManager)
    → is_done cm.cancelled ctx ≡ false
    → (attempt false connected ctx cm).1 ≡ next_state ctx cm
unfolding attempt
attempt-next_state ctx cm fresh = ground arith

-- The cancel function of the watcher's own context is called before its context is used.
next_state-unwatched :
    (own : ℕ) (parents : Context) (cm : ConnectionManager)
    → cm.watcher ≡ some own
    → own < cm.contexts
    → (next_state (own ∷ parents) cm).watching ≡ none
unfolding is_done
next_state-unwatched own parents cm kept known = elim (Option-cases cm.conn) [
  | inl e ↦ ground arith
  | inr (i, e) ↦ ground arith
]

next_state-connected :
    (ctx : Context) (cm : ConnectionManager) → (next_state ctx cm).is_connected ≡ true
next_state-connected ctx cm = elim (Option-cases cm.watcher) [
  | inl e ↦ ground arith
  | inr (i, e) ↦ ground arith
]

-- A reconnection that succeeds cancels the context in which it runs, and watches the new connection in
-- a context made of it: no watcher is left, and the loss of the new connection changes nothing.
pub attempt-unwatched :
    (own : ℕ) (parents : Context) (cm : ConnectionManager)
    → cm.watcher ≡ some own
    → own < cm.contexts
    → is_done cm.cancelled (own ∷ parents) ≡ false
    → let after = end_reconnect (attempt false connected (own ∷ parents) cm).1 in
      (after.is_connected ≡ true)
      × (after.watching ≡ none)
      × (connection_lost after ≡ (none, after))
unfolding connection_lost
attempt-unwatched own parents cm kept known fresh =
    let alone = next_state-unwatched own parents cm kept known in
    rw (attempt-next_state (own ∷ parents) cm fresh)
      (next_state-connected (own ∷ parents) cm, alone, rw alone refl)
