-- ===== src/Rabbitmq/Publisher/Tests.antt =====
-- Runs of the publisher and of the strategies.
use devkit_go.Prelude.{ℕ, ◌≡◌, ◌+◌, refl, not, ◌==◌, List, [], ◌∷◌, ◌++◌, ok, err, length}
use devkit_go.Prelude.Text.{Text, codes}
use devkit_go.Rabbitmq.{driver, client_closed}
use devkit_go.Rabbitmq.Settings.{default_config, url_of, new_plain_strategy}
use devkit_go.Rabbitmq.Publisher.{
  Answers, publish, publish_batch, ArePublished, publish_batch-prefix,
}

-- The second message finds the client closed.
abbrev closing_answers : Answers ℕ
closing_answers = record {
  connected = λ n. not (n == 1);
  publisher_channel = λ n. ok 0;
  with_confirm = λ n ch msg. ok tt;
  without_confirm = λ n ch msg. ok tt;
}

batch_failed :
    publish_batch default_config closing_answers 0 [] (codes "a" ∷ codes "b" ∷ [])
    ≡ err (1, client_closed)
unfolding publish_batch publish devkit_go.Rabbitmq.Publisher.publish_internal
batch_failed = refl

publish_batch-prefix_example :
    (before : List Text) × ((body : Text) × ((after : List Text) × ((codes "a" ∷ codes "b" ∷ [])
          ≡ before ++ (body ∷ after))
        × (0 + length before ≡ 1)
        × ArePublished default_config closing_answers 0 [] before
        × (publish default_config closing_answers 1 [] body ≡ err client_closed)))
publish_batch-prefix_example =
    publish_batch-prefix default_config closing_answers 0 [] (codes "a" ∷ codes "b" ∷ []) 1
      client_closed batch_failed

-- A password with an @ makes the address of another host.
unescaped :
    url_of (codes "amqp") (new_plain_strategy (codes "h") (codes "u") (codes "p@x") [])
    ≡ url_of (codes "amqp") (new_plain_strategy (codes "x@h") (codes "u") (codes "p") [])
unfolding url_of
unescaped = refl
