-- ===== src/Rabbitmq/Connection/Tests.antt =====
-- A connection that is lost twice, and one that is made while the manager closes.
use devkit_go.Prelude.{◌<◌, ◌≡◌, refl, arith, true, false, none, some, [], ◌∷◌}
use devkit_go.Rabbitmq.{Error}
use devkit_go.Rabbitmq.Connection.{
  Context, ConnectionManager, new_connection_manager, is_done, connected, connect, connection_lost,
  attempt, end_reconnect, get_channel_pool, close,
}
use devkit_go.Rabbitmq.Connection.Watching.{attempt-unwatched}

-- The caller's context has the number 0.

abbrev lost_once : ConnectionManager
lost_once = (connection_lost (connect true connected (0 ∷ []) new_connection_manager).1).1

still_kept : lost_once.watcher ≡ some 1
unfolding connection_lost connect is_done devkit_go.Rabbitmq.Connection.trigger_reconnect
still_kept = refl

still_fresh : is_done lost_once.cancelled (1 ∷ 0 ∷ []) ≡ false
unfolding is_done connection_lost connect devkit_go.Rabbitmq.Connection.trigger_reconnect
still_fresh = refl

known : 1 < lost_once.contexts
unfolding connection_lost connect is_done devkit_go.Rabbitmq.Connection.trigger_reconnect
known = omega arith

attempt-unwatched_example :
    let after = end_reconnect (attempt false connected (1 ∷ 0 ∷ []) lost_once).1 in
    (after.is_connected ≡ true) × (after.watching ≡ none) × (connection_lost after ≡ (none, after))
attempt-unwatched_example = attempt-unwatched 1 (0 ∷ []) lost_once still_kept known still_fresh

-- The manager closes between the check of an attempt and the end of its dial.
leaks : (attempt false connected (0 ∷ []) (close lost_once)).1.open_conns 1 ≡ true
unfolding attempt is_done close connection_lost connect
    devkit_go.Rabbitmq.Connection.trigger_reconnect
leaks = refl
