-- ===== src/Rabbitmq/Pool/Tests.antt =====
-- A pool that is used and closed.
use devkit_go.Prelude.{ℕ, ◌<◌, ◌≡◌, ◌⊎◌, refl, arith, true, false, none, some, [], ◌∷◌, ok, err}
use devkit_go.Prelude.Text.{Text}
use devkit_go.Rabbitmq.{Error, client_closed}
use devkit_go.Rabbitmq.Pool.{
  Amqp, ChannelPool, new_channel_pool, get_consumer_channel, get_publisher_channel,
  get_generic_channel, open_channel, empty_pool,
}
use devkit_go.Rabbitmq.Pool.Invariant.{
  get_consumer, release, get_generic, close_pool, broker_closes, run_ops,
}
use devkit_go.Rabbitmq.Pool.Closing.{closed_safe}

abbrev amqp : Amqp
amqp = record { channel_answer = λ i. none; confirm_answer = λ i. none; close_answer = λ i. none }

abbrev new_pool : ChannelPool
new_pool = record (open_channel empty_pool) { publisher = some 0 }

is_new : new_channel_pool amqp true ≡ ok new_pool
unfolding new_channel_pool
is_new = refl

-- Two consumers, of which the channel of the first is closed by the broker.
abbrev used : ChannelPool
used =
    run_ops amqp
      (get_consumer (97 ∷ [])
        ∷ get_consumer (98 ∷ [])
        ∷ broker_closes 1
        ∷ get_consumer (97 ∷ [])
        ∷ get_generic
        ∷ release (98 ∷ [])
        ∷ close_pool
        ∷ [])
      new_pool

used_is_closed : used.closed ≡ true
unfolding run_ops devkit_go.Rabbitmq.Pool.Invariant.run_op devkit_go.Rabbitmq.Pool.close
    devkit_go.Rabbitmq.Pool.release_consumer_channel devkit_go.Rabbitmq.Pool.lookup
    get_generic_channel get_consumer_channel devkit_go.Prelude.Text.text_eq
    devkit_go.Rabbitmq.Pool.delete devkit_go.Rabbitmq.Pool.close_all
used_is_closed = refl

four_made : 3 < used.made
unfolding run_ops devkit_go.Rabbitmq.Pool.Invariant.run_op devkit_go.Rabbitmq.Pool.close
    devkit_go.Rabbitmq.Pool.release_consumer_channel devkit_go.Rabbitmq.Pool.lookup
    get_generic_channel get_consumer_channel devkit_go.Prelude.Text.text_eq
    devkit_go.Rabbitmq.Pool.delete devkit_go.Rabbitmq.Pool.close_all
four_made = omega arith

closed_safe_example :
    ((used.asked 3 ≡ 1) ⊎ ((used.gone 3 ≡ true) ⊎ (used.generic 3 ≡ true)))
    × ((get_consumer_channel amqp (97 ∷ []) used).0 ≡ err client_closed)
    × (get_publisher_channel used ≡ err client_closed)
    × ((get_generic_channel amqp used).0 ≡ err client_closed)
closed_safe_example =
    closed_safe amqp true
      (get_consumer (97 ∷ [])
        ∷ get_consumer (98 ∷ [])
        ∷ broker_closes 1
        ∷ get_consumer (97 ∷ [])
        ∷ get_generic
        ∷ release (98 ∷ [])
        ∷ close_pool
        ∷ [])
      3 (97 ∷ []) is_new used_is_closed four_made
