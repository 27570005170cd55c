-- ===== src/Rabbitmq/Pool/Closing.antt =====
-- `Close` of pkg/messaging/rabbitmq/channel_pool.go, after any calls of the pool's methods.
use devkit_go.Prelude.{
  ℕ, ◌<◌, ◌≡◌, ◌⊎◌, inl, inr, refl, subst, ap, ◌∙◌, arith, Bool, true, false, some, List, [], ◌∷◌,
  ok, err, Bool-cases, Option-cases,
}
use devkit_go.Prelude.Text.{Text}
use devkit_go.Rabbitmq.{client_closed}
use devkit_go.Rabbitmq.Pool.{
  Amqp, ChannelPool, lookup, delete, open_channel, create_consumer, get_consumer_channel,
  get_publisher_channel, release_consumer_channel, get_generic_channel, close_publisher, close,
  empty_pool, new_channel_pool,
}
use devkit_go.Rabbitmq.Pool.Invariant.{
  has_id, is_held, publisher_made, publisher_closed, IsTracked, IsEmptied, Op, get_consumer,
  release, get_generic, close_pool, broker_closes, run_op, run_ops, get_consumer-cases,
  create_consumer-cases, release-cases, get_consumer-IsTracked, release-IsTracked,
  generic-IsTracked,
}
use devkit_go.Rabbitmq.Pool.Loop.{
  close_all-closes, close_all-IsTracked, close_all-rest, closing, loop_end, closing-IsTracked,
  closing-rest,
}

-- Once the loop has closed the objects of all entries, the map may be emptied.
emptied-IsTracked :
    (p : ChannelPool)
    → ((i : ℕ) → has_id i p.consumers ≡ true → p.flags i ≡ true)
    → IsTracked p
    → IsTracked (record p { consumers = [] })
unfolding is_held has_id publisher_made
emptied-IsTracked p all v = record {
  held = λ i h. ground (arith, v.held i h, all i);
  asked_once = v.asked_once;
  own = v.own;
}

loop_end-closes :
    (amqp : Amqp) (p : ChannelPool) (i : ℕ)
    → has_id i (loop_end amqp p).consumers ≡ true
    → (loop_end amqp p).flags i ≡ true
loop_end-closes amqp p i h =
    let all =
      close_all-rest amqp p.consumers (close_publisher amqp (record p { closed = true })).0
        (closing amqp p) in
    let same : (loop_end amqp p).consumers ≡ p.consumers = all.2 ∙ (closing-rest amqp p).1 in
    close_all-closes amqp p.consumers _ (closing amqp p) i (ground (arith, ap (has_id i) same))

close-IsTracked : (amqp : Amqp) (p : ChannelPool) → IsTracked p → IsTracked (close amqp p).1
unfolding close
close-IsTracked amqp p v = elim (Bool-cases p.closed) [
  | inl c ↦ subst IsTracked (ground arith) v
  | inr c ↦ subst IsTracked (ground arith) (
      emptied-IsTracked (loop_end amqp p) (loop_end-closes amqp p)
        (close_all-IsTracked amqp p.consumers _ _ (closing-IsTracked amqp p v)))
]

run_op-IsTracked :
    (amqp : Amqp) (op : Op) (p : ChannelPool) → IsTracked p → IsTracked (run_op amqp op p)
unfolding run_op is_held publisher_made get_generic_channel
run_op-IsTracked amqp (get_consumer tag) p v = get_consumer-IsTracked amqp tag p v
run_op-IsTracked amqp (release tag) p v = release-IsTracked amqp tag p v
run_op-IsTracked amqp get_generic p v = elim (Bool-cases p.closed) [
  | inl c ↦ subst IsTracked (ground arith) v
  | inr c ↦ elim (Option-cases (amqp.channel_answer p.made)) [
    | inl e ↦ subst IsTracked (ground arith) (generic-IsTracked p v)
    | inr (x, e) ↦ subst IsTracked (ground arith) v
  ]
]
run_op-IsTracked amqp close_pool p v = close-IsTracked amqp p v
run_op-IsTracked amqp (broker_closes i) p v = record {
  held = λ j h. ground (arith, v.held j h);
  asked_once = v.asked_once;
  own = v.own;
}

create_consumer-closed :
    (amqp : Amqp) (tag : Text) (p : ChannelPool)
    → p.closed ≡ false
    → (create_consumer amqp tag p).1.closed ≡ false
create_consumer-closed amqp tag p o = elim (create_consumer-cases amqp tag p) [
  | inl e ↦ ap (λ q. q.closed) e ∙ o
  | inr e ↦ ap (λ q. q.closed) e ∙ o
]

loop_end-publisher_closed :
    (amqp : Amqp) (p : ChannelPool) → publisher_closed (loop_end amqp p) ≡ true
unfolding publisher_closed
loop_end-publisher_closed amqp p =
    let first = (close_publisher amqp (record p { closed = true })).0 in
    let all = close_all-rest amqp p.consumers first (closing amqp p) in
    elim (Option-cases p.publisher) [
      | inl e ↦ ground (arith, all.1, closing-rest amqp p)
      | inr (i, e) ↦ ground (
        arith,
        all.1,
        closing-rest amqp p,
        close_all-closes amqp p.consumers first (closing amqp p) i,
      )
    ]

run_op-closed :
    (amqp : Amqp) (op : Op) (p : ChannelPool)
    → p.closed ≡ false
    → IsEmptied p
    → IsEmptied (run_op amqp op p)
unfolding run_op publisher_closed get_generic_channel get_consumer_channel close
run_op-closed amqp (get_consumer tag) p o v = inl (elim (get_consumer-cases amqp tag p) [
  | inl e ↦ ap (λ q. q.closed) e ∙ o
  | inr (inl e) ↦ ap (λ q. q.closed) e ∙ create_consumer-closed amqp tag p o
  | inr (inr (i, found, shut, e)) ↦
      ap (λ q. q.closed) e
      ∙ create_consumer-closed amqp tag (record p { consumers = delete tag p.consumers }) o
])
run_op-closed amqp (release tag) p o v = inl (elim (release-cases amqp tag p) [
  | inl e ↦ ap (λ q. q.closed) e ∙ o
  | inr (i, found, inl e) ↦ ap (λ q. q.closed) e ∙ ground arith
  | inr (i, found, inr e) ↦ ap (λ q. q.closed) e ∙ ground arith
])
run_op-closed amqp get_generic p o v = inl (ground arith)
run_op-closed amqp close_pool p o v =
    inr (ground arith, ground (arith, loop_end-publisher_closed amqp p))
run_op-closed amqp (broker_closes i) p o v = v

-- A pool that is closed stays as it is, but for the broker.
closed-run_op :
    (amqp : Amqp) (op : Op) (p : ChannelPool)
    → p.closed ≡ true
    → IsEmptied p
    → IsEmptied (run_op amqp op p)
unfolding run_op publisher_closed get_generic_channel get_consumer_channel close lookup
    release_consumer_channel
closed-run_op amqp (get_consumer tag) p c v =
    subst IsEmptied {x = p} {y = (get_consumer_channel amqp tag p).1} (ground arith) v
closed-run_op amqp (release tag) p c v = elim v [
  | inl o ↦ ground arith
  | inr (e, shut) ↦
      subst IsEmptied {x = p} {y = (release_consumer_channel amqp tag p).1} (ground (arith, e))
        (inr (e, shut))
]
closed-run_op amqp get_generic p c v =
    subst IsEmptied {x = p} {y = (get_generic_channel amqp p).1} (ground arith) v
closed-run_op amqp close_pool p c v =
    subst IsEmptied {x = p} {y = (close amqp p).1} (ground arith) v
closed-run_op amqp (broker_closes i) p c v = v

pub run_ops-IsTracked :
    (amqp : Amqp) (ops : List Op) (p : ChannelPool) → IsTracked p → IsTracked (run_ops amqp ops p)
unfolding run_ops
run_ops-IsTracked amqp [] p v = v
run_ops-IsTracked amqp (op ∷ ops) p v = run_ops-IsTracked amqp ops _ (run_op-IsTracked amqp op p v)

pub run_ops-IsEmptied :
    (amqp : Amqp) (ops : List Op) (p : ChannelPool) → IsEmptied p → IsEmptied (run_ops amqp ops p)
unfolding run_ops
run_ops-IsEmptied amqp [] p v = v
run_ops-IsEmptied amqp (op ∷ ops) p v = run_ops-IsEmptied amqp ops _ (elim (Bool-cases p.closed) [
  | inl c ↦ closed-run_op amqp op p c v
  | inr o ↦ run_op-closed amqp op p o v
])

abbrev first_pool : ChannelPool
first_pool = record (open_channel empty_pool) { publisher = some 0 }

new_channel_pool-first :
    (amqp : Amqp) (confirms : Bool) {p : ChannelPool}
    → new_channel_pool amqp confirms ≡ ok p
    → first_pool ≡ p
unfolding new_channel_pool
new_channel_pool-first amqp confirms h = ground arith

new_channel_pool-IsTracked :
    (amqp : Amqp) (confirms : Bool) {p : ChannelPool}
    → new_channel_pool amqp confirms ≡ ok p
    → IsTracked p
unfolding is_held publisher_made
new_channel_pool-IsTracked amqp confirms h =
    subst IsTracked (new_channel_pool-first amqp confirms h)
      (record { held = λ i h. ground arith; asked_once = λ i. ground arith; own = refl })

new_channel_pool-IsEmptied :
    (amqp : Amqp) (confirms : Bool) {p : ChannelPool}
    → new_channel_pool amqp confirms ≡ ok p
    → IsEmptied p
new_channel_pool-IsEmptied amqp confirms h =
    subst IsEmptied {x = first_pool} (new_channel_pool-first amqp confirms h) (inl refl)

-- In every state of a pool, `Close` was asked at most once of each channel and asked of none whose object is not closed; and when the pool is
-- closed, every channel that its connection opened is asked to close, closed by the broker, or with the caller that asked for a generic one, and no call
-- gives a channel any more.
pub closed_safe :
    (amqp : Amqp) (confirms : Bool) {new : ChannelPool} (ops : List Op) (i : ℕ) (tag : Text)
    → new_channel_pool amqp confirms ≡ ok new
    → let p = run_ops amqp ops new in
      p.closed ≡ true
      → i < p.made
      → ((p.asked i ≡ 1) ⊎ ((p.gone i ≡ true) ⊎ (p.generic i ≡ true)))
        × ((get_consumer_channel amqp tag p).0 ≡ err client_closed)
        × (get_publisher_channel p ≡ err client_closed)
        × ((get_generic_channel amqp p).0 ≡ err client_closed)
unfolding is_held publisher_closed has_id get_generic_channel get_consumer_channel
    get_publisher_channel
closed_safe amqp confirms {new} ops i tag made c lt =
    let w = run_ops-IsTracked amqp ops new (new_channel_pool-IsTracked amqp confirms made) in
    let z = run_ops-IsEmptied amqp ops new (new_channel_pool-IsEmptied amqp confirms made) in
    (ground (arith, w.held i lt, w.asked_once i, z), ground arith, ground arith, ground arith)
