-- ===== src/Rabbitmq/Pool/Loop.antt =====
-- The loop of `Close` in pkg/messaging/rabbitmq/channel_pool.go.
use devkit_go.Prelude.{
  ℕ, ◌≡◌, inl, inr, refl, subst, arith, true, ◌||◌, Option, List, [], ◌∷◌, Option-cases,
}
use devkit_go.Prelude.Text.{Text}
use devkit_go.Rabbitmq.{Error}
use devkit_go.Rabbitmq.Pool.{
  Amqp, ChannelPool, close_object, first_error, close_all, close_publisher,
}
use devkit_go.Rabbitmq.Pool.Invariant.{
  has_id, is_held, publisher_closed, publisher_made, IsTracked, close_object-IsTracked,
}

-- The loop of `Close` closes the object of every entry, and changes nothing else.
pub close_all-closes :
    (amqp : Amqp) (l : List (Text × ℕ)) (first : Option Error) (p : ChannelPool) (i : ℕ)
    → (has_id i l || p.flags i) ≡ true
    → (close_all amqp l first p).1.flags i ≡ true
unfolding close_all has_id
close_all-closes amqp [] first p i h = h
close_all-closes amqp ((t, j) ∷ rest) first p i h = close_all-closes amqp rest _ _ i (ground arith)

pub close_all-IsTracked :
    (amqp : Amqp) (l : List (Text × ℕ)) (first : Option Error) (p : ChannelPool)
    → IsTracked p
    → IsTracked (close_all amqp l first p).1
unfolding close_all
close_all-IsTracked amqp [] first p v = v
close_all-IsTracked amqp ((t, j) ∷ rest) first p v =
    close_all-IsTracked amqp rest _ _ (close_object-IsTracked amqp j p v)

-- What the loop leaves as it was.
pub close_all-rest :
    (amqp : Amqp) (l : List (Text × ℕ)) (first : Option Error) (p : ChannelPool)
    → ((close_all amqp l first p).1.closed ≡ p.closed)
      × ((close_all amqp l first p).1.publisher ≡ p.publisher)
      × ((close_all amqp l first p).1.consumers ≡ p.consumers)
      × ((close_all amqp l first p).1.made ≡ p.made)
unfolding close_all
close_all-rest amqp [] first p = (refl, refl, refl, refl)
close_all-rest amqp ((t, j) ∷ rest) first p = ground (
  arith,
  close_all-rest amqp rest (first_error first (close_object amqp j p).0) (close_object amqp j p).1,
)

-- The state in which `Close` begins its loop, and the one in which it ends it.
abbrev pub closing : Amqp → ChannelPool → ChannelPool
closing amqp p = (close_publisher amqp (record p { closed = true })).1

abbrev pub loop_end : Amqp → ChannelPool → ChannelPool
loop_end amqp p =
    (close_all amqp p.consumers (close_publisher amqp (record p { closed = true })).0
      (closing amqp p)).1

pub closing-IsTracked : (amqp : Amqp) (p : ChannelPool) → IsTracked p → IsTracked (closing amqp p)
unfolding publisher_made is_held
closing-IsTracked amqp p v =
    let w : IsTracked (record p { closed = true }) = record {
      held = v.held;
      asked_once = v.asked_once;
      own = v.own;
    } in
    elim (Option-cases p.publisher) [
      | inl e ↦ subst IsTracked (ground arith) w
      | inr (i, e) ↦
          subst IsTracked (ground arith)
            (close_object-IsTracked amqp i (record p { closed = true }) w)
    ]

pub closing-rest :
    (amqp : Amqp) (p : ChannelPool)
    → ((closing amqp p).publisher ≡ p.publisher)
      × ((closing amqp p).consumers ≡ p.consumers)
      × ((closing amqp p).closed ≡ true)
      × (publisher_closed (closing amqp p) ≡ true)
unfolding publisher_closed
closing-rest amqp p = ground arith
