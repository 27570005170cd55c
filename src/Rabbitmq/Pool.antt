-- ===== src/Rabbitmq/Pool.antt =====
-- pkg/messaging/rabbitmq/channel_pool.go: `ChannelPool`. Channels are numbered as the connection opens
-- them, and an object that wraps one has its number. The answers of the AMQP library are parameters,
-- and the broker may close a channel at any time. Logs are left out.
pub mod Invariant
pub mod Loop
pub mod Closing
mod Tests
use devkit_go.Prelude.{
  ℕ, zero, suc, ◌==◌, Bool, true, false, ◌||◌, Option, none, some, List, [], ◌∷◌, if◌then◌else◌,
  Result, ok, err, panic, map,
}
use devkit_go.Prelude.Text.{Text, text_eq}
use devkit_go.Rabbitmq.{Error, client_closed, channel_closed, empty_tag, no_publisher}

-- The AMQP library: what `Channel`, `Confirm` and `Close` answer.
pub record Amqp : Type 0 where
  pub channel_answer : ℕ → Option Error
  pub confirm_answer : ℕ → Option Error
  pub close_answer : ℕ → Option Error

-- `consumers` is the map of the pool, `flags` the field `closed` of the objects. Of the world it keeps
-- how many channels the connection opened, which of them are closed by the broker (`gone`), how often
-- `Close` was called on each (`asked`), and which were given away as generic ones.
pub record ChannelPool : Type 0 where
  pub closed : Bool
  pub publisher : Option ℕ
  pub consumers : List (Text × ℕ)
  pub flags : ℕ → Bool
  pub made : ℕ
  pub gone : ℕ → Bool
  pub asked : ℕ → ℕ
  pub generic : ℕ → Bool

abbrev pub set_at {ℓ} : {A : Type ℓ} → (ℕ → A) → ℕ → A → ℕ → A
set_at f i x j = if j == i then x else f j

unfoldable pub lookup : Text → List (Text × ℕ) → Option ℕ
lookup tag [] = none
lookup tag ((t, i) ∷ rest) = let found = lookup tag rest in if text_eq tag t then some i else found

-- `delete(m, tag)`, where no tag stands twice.
unfoldable pub delete : Text → List (Text × ℕ) → List (Text × ℕ)
delete tag [] = []
delete tag ((t, i) ∷ rest) =
    let others = delete tag rest in if text_eq tag t then rest else (t, i) ∷ others

abbrev pub is_empty : Text → Bool
is_empty [] = true
is_empty (c ∷ s) = false

-- A new object on the next channel.
abbrev pub open_channel : ChannelPool → ChannelPool
open_channel p = record p {
  made = suc p.made;
  flags = set_at p.flags p.made false;
  gone = set_at p.gone p.made false;
  asked = set_at p.asked p.made 0;
  generic = set_at p.generic p.made false;
}

abbrev pub empty_pool : ChannelPool
empty_pool = record {
  closed = false;
  publisher = none;
  consumers = [];
  flags = λ i. false;
  made = 0;
  gone = λ i. false;
  asked = λ i. 0;
  generic = λ i. false;
}

-- `newChannelPool`, on a connection that is there.
unfoldable pub new_channel_pool : Amqp → Bool → Result Error ChannelPool
new_channel_pool amqp enable_confirms = elim (amqp.channel_answer 0) [
  | some e ↦ err e
  | none ↦
      let pool = record (open_channel empty_pool) { publisher = some 0 } in
      if enable_confirms
      then elim (amqp.confirm_answer 0) [ none ↦ ok pool | some e ↦ err e ]
      else ok pool
]

unfoldable pub get_publisher_channel : ChannelPool → Result Error ℕ
get_publisher_channel p = if p.closed then err client_closed else elim p.publisher [
  | none ↦ err no_publisher
  | some i ↦ if p.flags i || p.gone i then err channel_closed else ok i
]

abbrev pub create_consumer : Amqp → Text → ChannelPool → Result Error ℕ × ChannelPool
create_consumer amqp tag p = elim (amqp.channel_answer p.made) [
  | some e ↦ (err e, p)
  | none ↦ (ok p.made, record (open_channel p) { consumers = (tag, p.made) ∷ p.consumers })
]

unfoldable pub get_consumer_channel : Amqp → Text → ChannelPool → Result Error ℕ × ChannelPool
get_consumer_channel amqp tag p =
    if p.closed
    then (err client_closed, p)
    else if is_empty tag
    then (err empty_tag, p)
    else elim (lookup tag p.consumers) [
      | none ↦ create_consumer amqp tag p
      | some i ↦
          if p.flags i || p.gone i
          then create_consumer amqp tag (record p { consumers = delete tag p.consumers })
          else (ok i, p)
    ]

-- `if !x.closed { x.closed = true; x.ch.Close() }`
abbrev pub close_object : Amqp → ℕ → ChannelPool → Option Error × ChannelPool
close_object amqp i p = if p.flags i then (none, p) else (
  amqp.close_answer i,
  record p { flags = set_at p.flags i true; asked = set_at p.asked i (suc (p.asked i)) },
)

unfoldable pub release_consumer_channel : Amqp → Text → ChannelPool → Option Error × ChannelPool
release_consumer_channel amqp tag p = elim (lookup tag p.consumers) [
  | none ↦ (none, p)
  | some i ↦
      let (answer, p') = close_object amqp i p in
      elim answer [
        | some e ↦ (some e, p')
        | none ↦ (none, record p' { consumers = delete tag p'.consumers })
      ]
]

unfoldable pub get_generic_channel : Amqp → ChannelPool → Result Error ℕ × ChannelPool
get_generic_channel amqp p =
    if p.closed then (err client_closed, p) else elim (amqp.channel_answer p.made) [
      | some e ↦ (err e, p)
      | none ↦ (ok p.made, record (open_channel p) { generic = set_at p.generic p.made true })
    ]

abbrev pub first_error : Option Error → Option Error → Option Error
first_error none later = later
first_error (some e) later = some e

-- The loop of `Close` over the consumers, from the first error so far.
unfoldable pub close_all :
    Amqp → List (Text × ℕ) → Option Error → ChannelPool → Option Error × ChannelPool
close_all amqp [] first p = (first, p)
close_all amqp ((tag, i) ∷ rest) first p =
    close_all amqp rest (first_error first (close_object amqp i p).0) (close_object amqp i p).1

abbrev pub close_publisher : Amqp → ChannelPool → Option Error × ChannelPool
close_publisher amqp p = elim p.publisher [ none ↦ (none, p) | some i ↦ close_object amqp i p ]

unfoldable pub close : Amqp → ChannelPool → Option Error × ChannelPool
close amqp p =
    let q = close_publisher amqp (record p { closed = true }) in
    let all = close_all amqp p.consumers q.0 q.1 in
    if p.closed then (none, p) else (all.0, record all.1 { consumers = [] })

-- `Channel` of a consumer's object.
unfoldable pub channel : ℕ → ChannelPool → Result Error ℕ
channel i p = if p.flags i || p.gone i then err channel_closed else ok i
