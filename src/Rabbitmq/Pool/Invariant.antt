-- ===== src/Rabbitmq/Pool/Invariant.antt =====
-- What the methods of `ChannelPool` in pkg/messaging/rabbitmq/channel_pool.go keep true together.
use devkit_go.Prelude.{
  ℕ, ◌<◌, ◌==◌, ◌≡◌, ◌⊎◌, inl, inr, sym, subst, ap, ◌∙◌, arith, Bool, true, false, ◌||◌, none, some,
  List, [], ◌∷◌, if◌then◌else◌, Bool-cases, Option-cases, ltb,
}
use devkit_go.Prelude.Text.{Text}
use devkit_go.Rabbitmq.Pool.{
  Amqp, ChannelPool, set_at, lookup, delete, is_empty, open_channel, create_consumer,
  get_consumer_channel, close_object, release_consumer_channel, get_generic_channel, close,
}

-- Is the channel that of an entry?
unfoldable pub has_id : ℕ → List (Text × ℕ) → Bool
has_id i [] = false
has_id i ((t, j) ∷ rest) = let later = has_id i rest in i == j || later

-- Whoever holds an open channel: the pool, the caller that asked for a generic one, or nobody.
unfoldable pub is_held : ChannelPool → ℕ → Bool
is_held p i =
    p.flags i
    || (p.gone i
        || (p.generic i
            || (has_id i p.consumers || elim p.publisher [ none ↦ false | some j ↦ i == j ])))

-- Is the publisher's object closed, if there is one?
unfoldable pub publisher_closed : ChannelPool → Bool
publisher_closed p = elim p.publisher [ none ↦ true | some j ↦ p.flags j ]

-- Did the connection open the publisher's channel?
unfoldable pub publisher_made : ChannelPool → Bool
publisher_made p = elim p.publisher [ none ↦ true | some j ↦ ltb j p.made ]

pub record IsTracked (p : ChannelPool) : Type 0 where
  pub held : (i : ℕ) → i < p.made → is_held p i ≡ true
  pub asked_once : (i : ℕ) → p.asked i ≡ (if p.flags i then 1 else 0)
  pub own : publisher_made p ≡ true

abbrev pub IsEmptied : ChannelPool → Type 0
IsEmptied p = (p.closed ≡ false) ⊎ ((p.consumers ≡ []) × (publisher_closed p ≡ true))

-- What the pool does between two calls of it, and the calls.
pub data Op : Type 0 where
  get_consumer : Text → Op
  release : Text → Op
  get_generic : Op
  close_pool : Op
  broker_closes : ℕ → Op

unfoldable pub run_op : Amqp → Op → ChannelPool → ChannelPool
run_op amqp (get_consumer tag) p = (get_consumer_channel amqp tag p).1
run_op amqp (release tag) p = (release_consumer_channel amqp tag p).1
run_op amqp get_generic p = (get_generic_channel amqp p).1
run_op amqp close_pool p = (close amqp p).1
run_op amqp (broker_closes i) p = record p { gone = set_at p.gone i true }

unfoldable pub run_ops : Amqp → List Op → ChannelPool → ChannelPool
run_ops amqp [] p = p
run_ops amqp (op ∷ ops) p = run_ops amqp ops (run_op amqp op p)

-- An entry that is dropped was the one that `lookup` finds.
has_id-delete :
    (tag : Text) (i : ℕ) (l : List (Text × ℕ))
    → has_id i l ≡ true
    → (has_id i (delete tag l) ≡ true) ⊎ (lookup tag l ≡ some i)
unfolding has_id delete lookup
has_id-delete tag i [] h = ground arith
has_id-delete tag i ((t, j) ∷ rest) h = ground (arith, has_id-delete tag i rest)

abbrev pub with_consumer : Text → ChannelPool → ChannelPool
with_consumer tag p = record (open_channel p) { consumers = (tag, p.made) ∷ p.consumers }

with_consumer-IsTracked :
    (p : ChannelPool) (tag : Text) → IsTracked p → IsTracked (with_consumer tag p)
unfolding is_held has_id publisher_made
with_consumer-IsTracked p tag v = record {
  held = λ i h. ground (arith, v.held i, v.own);
  asked_once = λ i. ground (arith, v.asked_once i);
  own = ground (arith, v.own);
}

pub generic-IsTracked :
    (p : ChannelPool)
    → IsTracked p
    → IsTracked (record (open_channel p) { generic = set_at p.generic p.made true })
unfolding is_held publisher_made
generic-IsTracked p v = record {
  held = λ i h. ground (arith, v.held i, v.own);
  asked_once = λ i. ground (arith, v.asked_once i);
  own = ground (arith, v.own);
}

pub close_object-IsTracked :
    (amqp : Amqp) (i : ℕ) (p : ChannelPool) → IsTracked p → IsTracked (close_object amqp i p).1
unfolding is_held publisher_made
close_object-IsTracked amqp i p v = record {
  held = λ j h. ground (arith, v.held j);
  asked_once = λ j. ground (arith, v.asked_once j, v.asked_once i);
  own = ground (arith, v.own);
}

-- An entry may go when its object or its channel is closed.
delete-IsTracked :
    (p : ChannelPool) (tag : Text) (i : ℕ)
    → lookup tag p.consumers ≡ some i
    → (p.flags i || p.gone i) ≡ true
    → IsTracked p
    → IsTracked (record p { consumers = delete tag p.consumers })
unfolding is_held publisher_made
delete-IsTracked p tag i found shut v = record {
  held = λ j h. ground (arith, v.held j, has_id-delete tag j p.consumers);
  asked_once = v.asked_once;
  own = v.own;
}

-- The two states that asking for a new channel can leave.
pub create_consumer-cases :
    (amqp : Amqp) (tag : Text) (p : ChannelPool)
    → ((create_consumer amqp tag p).1 ≡ p) ⊎ ((create_consumer amqp tag p).1 ≡ with_consumer tag p)
create_consumer-cases amqp tag p = elim (Option-cases (amqp.channel_answer p.made)) [
  | inl e ↦ inr (ground arith)
  | inr (x, e) ↦ inl (ground arith)
]

create_consumer-IsTracked :
    (amqp : Amqp) (tag : Text) (p : ChannelPool)
    → IsTracked p
    → IsTracked (create_consumer amqp tag p).1
create_consumer-IsTracked amqp tag p v = elim (create_consumer-cases amqp tag p) [
  | inl e ↦ subst IsTracked (sym e) v
  | inr e ↦ subst IsTracked (sym e) (with_consumer-IsTracked p tag v)
]

-- What a call for a consumer's channel can leave.
pub get_consumer-cases :
    (amqp : Amqp) (tag : Text) (p : ChannelPool)
    → ((get_consumer_channel amqp tag p).1 ≡ p)
      ⊎ (((get_consumer_channel amqp tag p).1 ≡ (create_consumer amqp tag p).1)
          ⊎ ((i : ℕ) × (lookup tag p.consumers ≡ some i)
              × ((p.flags i || p.gone i) ≡ true)
              × ((get_consumer_channel amqp tag p).1
                  ≡ (create_consumer amqp tag
                      (record p { consumers = delete tag p.consumers })).1)))
unfolding get_consumer_channel
get_consumer-cases amqp tag p = elim (Option-cases (lookup tag p.consumers)) [
  | inl e ↦ ground arith
  | inr (i, e) ↦ elim (Bool-cases (p.flags i || p.gone i)) [
    | inl shut ↦ elim (Bool-cases (p.closed || is_empty tag)) [
      | inl refused ↦ inl (ground arith)
      | inr asked ↦ inr (inr (i, e, shut, ground arith))
    ]
    | inr usable ↦ inl (ground arith)
  ]
]

pub get_consumer-IsTracked :
    (amqp : Amqp) (tag : Text) (p : ChannelPool)
    → IsTracked p
    → IsTracked (get_consumer_channel amqp tag p).1
get_consumer-IsTracked amqp tag p v = elim (get_consumer-cases amqp tag p) [
  | inl e ↦ subst IsTracked (sym e) v
  | inr (inl e) ↦ subst IsTracked (sym e) (create_consumer-IsTracked amqp tag p v)
  | inr (inr (i, found, shut, e)) ↦ subst IsTracked (sym e) (
      create_consumer-IsTracked amqp tag (record p { consumers = delete tag p.consumers })
        (delete-IsTracked p tag i found shut v))
]

-- What a release can leave.
pub release-cases :
    (amqp : Amqp) (tag : Text) (p : ChannelPool)
    → ((release_consumer_channel amqp tag p).1 ≡ p)
      ⊎ ((i : ℕ) × (lookup tag p.consumers ≡ some i)
          × (((release_consumer_channel amqp tag p).1 ≡ (close_object amqp i p).1)
              ⊎ ((release_consumer_channel amqp tag p).1 ≡ record (close_object amqp i p).1 {
                consumers = delete tag (close_object amqp i p).1.consumers;
              })))
unfolding release_consumer_channel
release-cases amqp tag p = elim (Option-cases (lookup tag p.consumers)) [
  | inl e ↦ inl (ground arith)
  | inr (i, e) ↦ inr (
    i,
    e,
    elim (Option-cases (close_object amqp i p).0) [
      | inl fine ↦ inr (ground arith)
      | inr (x, failed) ↦ inl (ground arith)
    ],
  )
]

close_object-flag :
    (amqp : Amqp) (i : ℕ) (p : ChannelPool) → (close_object amqp i p).1.flags i ≡ true
close_object-flag amqp i p = ground arith

close_object-consumers :
    (amqp : Amqp) (i : ℕ) (p : ChannelPool) → (close_object amqp i p).1.consumers ≡ p.consumers
close_object-consumers amqp i p = ground arith

pub release-IsTracked :
    (amqp : Amqp) (tag : Text) (p : ChannelPool)
    → IsTracked p
    → IsTracked (release_consumer_channel amqp tag p).1
release-IsTracked amqp tag p v = elim (release-cases amqp tag p) [
  | inl e ↦ subst IsTracked (sym e) v
  | inr (i, found, inl e) ↦ subst IsTracked (sym e) (close_object-IsTracked amqp i p v)
  | inr (i, found, inr e) ↦ subst IsTracked (sym e) (
      delete-IsTracked (close_object amqp i p).1 tag i
        (ap (lookup tag) (close_object-consumers amqp i p) ∙ found)
        (ground (arith, close_object-flag amqp i p)) (close_object-IsTracked amqp i p v))
]
