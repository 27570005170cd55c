-- ===== src/Rabbitmq/Publishing/Tests.antt =====
-- Publishing after a publish that ran out of time.
use devkit_go.Prelude.{ℕ, ◌≡◌, refl, Bool, false, not, ◌==◌, none, [], ◌∷◌, ok, err, map}
use devkit_go.Rabbitmq.{publish_timeout, publish_confirm_failed}
use devkit_go.Rabbitmq.Publishing.{
  PublisherChannel, verdict, publish_with_confirm, publish_all, prefix_for, publish_all-shifted,
}

-- The broker rejects the message 2 only.
abbrev confirms : ℕ → Bool
confirms m = not (m == 2)

abbrev late : PublisherChannel ℕ
late = record { closed = false; gone = false; unread = 1 ∷ [] }

-- The publish of the message 1 ran out of time. That of 2 succeeds, and that of 3 fails.
publish_all-shifted_example :
    publish_all confirms (2 ∷ 3 ∷ []) late
    ≡ map (verdict confirms) (prefix_for (1 ∷ 2 ∷ 3 ∷ []) (2 ∷ 3 ∷ []))
publish_all-shifted_example = publish_all-shifted confirms (2 ∷ 3 ∷ []) late refl refl

timeout_leaves_one :
    publish_with_confirm confirms none false 1 (record late { unread = [] })
    ≡ (err publish_timeout, late)
unfolding publish_with_confirm
timeout_leaves_one = refl

misreported : publish_all confirms (2 ∷ 3 ∷ []) late ≡ ok tt ∷ err publish_confirm_failed ∷ []
unfolding publish_all publish_with_confirm
misreported = refl
