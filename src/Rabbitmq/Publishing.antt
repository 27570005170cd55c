-- ===== src/Rabbitmq/Publishing.antt =====
-- pkg/messaging/rabbitmq/channel_pool.go: `PublishWithConfirm` and `PublishWithoutConfirm` of
-- `publisherChannel`. The AMQP library sends confirmations in the order of the messages, into a
-- channel of Go that nothing else reads; its capacity is left out.
mod Tests
use devkit_go.Prelude.{
  ℕ, zero, suc, ◌≡◌, refl, sym, ap, subst, ◌∙◌, arith, Bool, true, false, ◌||◌, Option, none, some,
  List, [], ◌∷◌, ◌++◌, if◌then◌else◌, Result, ok, err, map, length, append_assoc,
}
use devkit_go.Rabbitmq.{Error, channel_closed, publish_confirm_failed, publish_timeout}

-- `unread`: the messages whose confirmations have not been read, the oldest first.
pub record PublisherChannel (M : Type 0) : Type 0 where
  pub closed : Bool
  pub gone : Bool
  pub unread : List M

-- `confirms`: does the broker confirm the message with an ack?
abbrev pub verdict : {M : Type 0} → (M → Bool) → M → Result Error (Unit {0})
verdict confirms m = if confirms m then ok tt else err publish_confirm_failed

-- What is read from `pc.confirms`: the confirmation of the oldest message.
abbrev pub read_confirm :
    {M : Type 0}
    → (M → Bool)
    → PublisherChannel M
    → List M
    → Result Error (Unit {0}) × PublisherChannel M
read_confirm confirms pc [] = (err publish_timeout, pc)
read_confirm confirms pc (oldest ∷ later) = (verdict confirms oldest, record pc { unread = later })

-- `answer` is that of the library's publish, and `timely` tells which case of the select is taken.
unfoldable pub publish_with_confirm :
    {M : Type 0}
    → (M → Bool)
    → Option Error
    → Bool
    → M
    → PublisherChannel M
    → Result Error (Unit {0}) × PublisherChannel M
publish_with_confirm confirms answer timely m pc =
    let queue = pc.unread ++ (m ∷ []) in
    if pc.closed || pc.gone then (err channel_closed, pc) else elim answer [
      | some e ↦ (err e, pc)
      | none ↦
          if timely
          then read_confirm confirms pc queue
          else (err publish_timeout, record pc { unread = queue })
    ]

unfoldable pub publish_without_confirm :
    {M : Type 0} → Option Error → M → PublisherChannel M → Result Error (Unit {0})
publish_without_confirm answer m pc =
    if pc.closed || pc.gone
    then err channel_closed
    else elim answer [ none ↦ ok tt | some e ↦ err e ]

-- One publish after the other, each confirmed in time.
unfoldable pub publish_all :
    {M : Type 0} → (M → Bool) → List M → PublisherChannel M → List (Result Error (Unit {0}))
publish_all confirms [] pc = []
publish_all confirms (m ∷ ms) pc =
    (publish_with_confirm confirms none true m pc).0
    ∷ publish_all confirms ms (publish_with_confirm confirms none true m pc).1

-- The first elements, as many as the second list has.
unfoldable pub prefix_for : {M : Type 0} → List M → List M → List M
prefix_for [] ms = []
prefix_for (q ∷ qs) [] = []
prefix_for (q ∷ qs) (m ∷ ms) = q ∷ prefix_for qs ms

prefix_for-none : {M : Type 0} (q : List M) → [] ≡ prefix_for q []
unfolding prefix_for
prefix_for-none [] = refl
prefix_for-none (x ∷ q) = refl

abbrev open_with : {M : Type 0} → List M → PublisherChannel M
open_with q = record { closed = false; gone = false; unread = q }

shifted :
    {M : Type 0} (confirms : M → Bool) (ms q : List M)
    → publish_all confirms ms (open_with q) ≡ map (verdict confirms) (prefix_for (q ++ ms) ms)
unfolding publish_all publish_with_confirm prefix_for
shifted confirms [] q = rw (sym (prefix_for-none (q ++ []))) refl
shifted confirms (m ∷ ms) [] = ap (λ l. verdict confirms m ∷ l) (shifted confirms ms [])
shifted confirms (m ∷ ms) (x ∷ q) =
    ap (λ l. verdict confirms x ∷ l)
      (shifted confirms ms (q ++ (m ∷ []))
        ∙ ap (λ l. map (verdict confirms) (prefix_for l ms)) (append_assoc q (m ∷ []) ms))

-- On an open channel, each publish reports the verdict on the oldest unread message: the reports on
-- `ms` are the verdicts on the first messages of the unread ones followed by `ms`.
pub publish_all-shifted :
    {M : Type 0} (confirms : M → Bool) (ms : List M) (pc : PublisherChannel M)
    → pc.closed ≡ false
    → pc.gone ≡ false
    → publish_all confirms ms pc ≡ map (verdict confirms) (prefix_for (pc.unread ++ ms) ms)
publish_all-shifted confirms ms pc c g =
    let same : open_with pc.unread ≡ pc = sym (
      ap (λ b. record pc { closed = b }) c
      ∙ ap (λ b. record (open_with pc.unread) { gone = b }) g) in
    subst (λ p. publish_all confirms ms p ≡ map (verdict confirms) (prefix_for (p.unread ++ ms) ms))
      same (shifted confirms ms pc.unread)
