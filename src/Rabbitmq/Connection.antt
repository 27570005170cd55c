-- ===== src/Rabbitmq/Connection.antt =====
-- pkg/messaging/rabbitmq/connection.go: `connectionManager`. Connections are numbered as they are
-- dialled. A context is the list of its own cancel function and those of the contexts it is made
-- from, by number; the context of the caller is given. The pool is kept by the number of its
-- connection, and the errors of closing, the pauses between attempts and logs are left out.
pub mod Watching
mod Tests
use devkit_go.Prelude.{
  ℕ, zero, suc, ◌==◌, Bool, true, false, not, ◌&&◌, ◌||◌, Option, none, some, List, [], ◌∷◌,
  if◌then◌else◌, Result, ok, err,
}
use devkit_go.Rabbitmq.{Error, client_closed, no_connection, reconnecting}

abbrev pub Context : Type 0
Context = List ℕ

-- `cancelled` tells which cancel functions were called, `open_conns` which connections are open and
-- `open_pools` which pools. `watcher` is the context whose cancel function is kept, and `watching`
-- the one of a watcher that runs.
pub record ConnectionManager : Type 0 where
  pub conn : Option ℕ
  pub is_connected : Bool
  pub is_reconnecting : Bool
  pub closed : Bool
  pub watcher : Option ℕ
  pub watching : Option Context
  pub cancelled : ℕ → Bool
  pub contexts : ℕ
  pub dialled : ℕ
  pub open_conns : ℕ → Bool
  pub open_pools : ℕ → Bool

abbrev pub new_connection_manager : ConnectionManager
new_connection_manager = record {
  conn = none;
  is_connected = false;
  is_reconnecting = false;
  closed = false;
  watcher = none;
  watching = none;
  cancelled = λ i. false;
  contexts = 1;
  dialled = 0;
  open_conns = λ i. false;
  open_pools = λ i. false;
}

abbrev pub set_at : (ℕ → Bool) → ℕ → Bool → ℕ → Bool
set_at f i x j = if j == i then x else f j

-- Is the context done?
unfoldable pub is_done : (ℕ → Bool) → Context → Bool
is_done cancelled [] = false
is_done cancelled (i ∷ parents) = let above = is_done cancelled parents in cancelled i || above

-- What a dial and the pool on its connection give.
pub data Dial : Type 0 where
  refused no_pool connected : Dial

-- `if cm.watcherCancel != nil { cm.watcherCancel(); cm.watcherCancel = nil }`
abbrev pub cancel_watcher : ConnectionManager → ConnectionManager
cancel_watcher cm = elim cm.watcher [
  | none ↦ cm
  | some i ↦ record cm { cancelled = set_at cm.cancelled i true; watcher = none }
]

-- `context.WithCancel(ctx)` for the watcher, and the start of the watcher: one whose context is done
-- returns at once, since its connection is not closed yet.
abbrev pub start_watcher : Context → ConnectionManager → ConnectionManager
start_watcher ctx cm = record cm {
  watcher = some cm.contexts;
  contexts = suc cm.contexts;
  cancelled = set_at cm.cancelled cm.contexts false;
  watching =
      if is_done (set_at cm.cancelled cm.contexts false) (cm.contexts ∷ ctx)
      then none
      else some (cm.contexts ∷ ctx);
}

-- The assignments of a connection that was made, with its pool.
abbrev pub adopt : ConnectionManager → ConnectionManager
adopt cm = record cm {
  conn = some cm.dialled;
  is_connected = true;
  dialled = suc cm.dialled;
  open_conns = set_at cm.open_conns cm.dialled true;
  open_pools = set_at cm.open_pools cm.dialled true;
}

abbrev pub spend : ConnectionManager → ConnectionManager
spend cm = record cm { dialled = suc cm.dialled }

-- Does the call give an error?
unfoldable pub connect : Bool → Dial → Context → ConnectionManager → Bool × ConnectionManager
connect auto_reconnect dial ctx cm =
    if cm.closed then (true, cm) else if cm.is_connected then (false, cm) else elim dial [
      | refused ↦ (true, cm)
      | no_pool ↦ (true, spend cm)
      | connected ↦ (
        false,
        (if auto_reconnect then start_watcher ctx (cancel_watcher (adopt cm)) else adopt cm),
      )
    ]

-- `triggerReconnect`
unfoldable pub trigger_reconnect : ConnectionManager → ConnectionManager
trigger_reconnect cm =
    if cm.closed || cm.is_reconnecting
    then cm
    else record cm { is_connected = false; is_reconnecting = true }

-- The library reports that the connection is closed, to the watcher if one runs.
unfoldable pub connection_lost : ConnectionManager → Option Context × ConnectionManager
connection_lost cm = elim cm.watching [
  | none ↦ (none, cm)
  | some ctx ↦ (some ctx, record (trigger_reconnect cm) { watching = none })
]

abbrev pub close_old_pool : ConnectionManager → ConnectionManager
close_old_pool cm = elim cm.conn [
  | none ↦ cm
  | some i ↦ record cm { open_pools = set_at cm.open_pools i false }
]

-- One attempt of `reconnect`, in the context of the watcher that saw the loss: does it end the
-- attempts? The check of the context and of the closing comes before the dial; `closing` tells whether
-- the manager was closed then.
unfoldable pub attempt : Bool → Dial → Context → ConnectionManager → Bool × ConnectionManager
attempt closing dial ctx cm =
    if closing || is_done cm.cancelled ctx then (true, cm) else elim dial [
      | refused ↦ (false, cm)
      | no_pool ↦ (false, spend cm)
      | connected ↦ (true, start_watcher ctx (cancel_watcher (adopt (close_old_pool cm))))
    ]

-- The deferred end of `reconnect`.
abbrev pub end_reconnect : ConnectionManager → ConnectionManager
end_reconnect cm = record cm { is_reconnecting = false }

unfoldable pub get_channel_pool : ConnectionManager → Result Error (Option ℕ)
get_channel_pool cm =
    if cm.closed
    then err client_closed
    else if not cm.is_connected
    then err no_connection
    else if cm.is_reconnecting
    then err reconnecting
    else ok cm.conn

unfoldable pub get_connection : ConnectionManager → Result Error (Option ℕ)
get_connection cm =
    if cm.closed
    then err client_closed
    else if not cm.is_connected
    then err no_connection
    else ok cm.conn

abbrev pub is_open : ConnectionManager → Bool
is_open cm = elim cm.conn [ none ↦ false | some i ↦ cm.open_conns i ]

unfoldable pub is_healthy : ConnectionManager → Bool
is_healthy cm = cm.is_connected && (not cm.closed && (not cm.is_reconnecting && is_open cm))

abbrev pub close_conn : ConnectionManager → ConnectionManager
close_conn cm = elim cm.conn [
  | none ↦ cm
  | some i ↦ record cm { open_conns = set_at cm.open_conns i false }
]

-- `close`, once.
unfoldable pub close : ConnectionManager → ConnectionManager
close cm = if cm.closed then cm else record (close_conn (close_old_pool (cancel_watcher cm))) {
  closed = true;
  is_connected = false;
  watching = none;
}
