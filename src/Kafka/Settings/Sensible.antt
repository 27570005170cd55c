-- ===== src/Kafka/Settings/Sensible.antt =====
-- What every configuration of a Kafka client has, whatever its options are.
use devkit_go.Prelude.{
  ◌≡◌, ◌⊎◌, inl, inr, refl, arith, Bool, true, false, none, some, List, subst, Bool-cases, [], ◌∷◌,
  ok, err,
}
use devkit_go.Prelude.Int.{pos, leb_ℤ}
use devkit_go.Kafka.Settings.{
  Config, default_config, ClientOption, apply_option, apply_options, is_positive, no_items,
  invalid_brokers, validate_config, new_client, with_auth_config, with_auth_confluent,
  with_auth_plain, with_auth_plaintext, with_auth_scram, with_brokers, with_connect_timeout,
  with_consumer_commit_interval, with_consumer_group_id, with_consumer_max_bytes,
  with_consumer_max_wait, with_consumer_min_bytes, with_consumer_start_offset, with_consumer_topics,
  with_dial_timeout, with_health_check_enabled, with_health_check_timeout,
  with_insecure_skip_verify, with_max_reconnect_delay, with_max_retries, with_max_retry_backoff,
  with_producer_async, with_producer_batch_size, with_producer_batch_timeout,
  with_producer_compression, with_producer_max_attempts, with_producer_required_acks,
  with_reconnect_enabled, with_reconnect_interval, with_retry_backoff,
}

abbrev has_strategy : Config → Bool
has_strategy c = elim (c.auth_strategy) [ none ↦ false | some s ↦ true ]

-- There is a strategy, every wait and size is positive, no count is negative, and the codec of the
-- compression exists.
pub record IsSensible (c : Config) : Type 0 where
  pub authenticated : has_strategy c ≡ true
  pub connecting :
      (is_positive c.dial_timeout ≡ true)
      × (is_positive c.connect_timeout ≡ true)
      × (leb_ℤ (pos 0) c.max_retries ≡ true)
      × (is_positive c.retry_backoff ≡ true)
      × (is_positive c.max_retry_backoff ≡ true)
  pub watching :
      (is_positive c.reconnect_interval ≡ true)
      × (is_positive c.max_reconnect_delay ≡ true)
      × (is_positive c.health_check_timeout ≡ true)
  pub producing :
      (is_positive c.producer_batch_size ≡ true)
      × (is_positive c.producer_batch_timeout ≡ true)
      × (is_positive c.producer_max_attempts ≡ true)
      × (leb_ℤ (pos 0) c.producer_compression ≡ true)
      × (leb_ℤ c.producer_compression (pos 4) ≡ true)
  pub consuming :
      (is_positive c.consumer_min_bytes ≡ true)
      × (is_positive c.consumer_max_bytes ≡ true)
      × (leb_ℤ (pos 0) c.consumer_commit_interval ≡ true)
      × (is_positive c.consumer_max_wait ≡ true)

-- Each option keeps it so.
apply_option-IsSensible :
    (o : ClientOption) (c : Config) → IsSensible c → IsSensible (apply_option o c)
unfolding apply_option
apply_option-IsSensible (with_brokers bs) c h = ground arith
apply_option-IsSensible (with_auth_plain user password) c h = ground arith
apply_option-IsSensible (with_auth_confluent key secret) c h = ground arith
apply_option-IsSensible (with_auth_scram user password algorithm) c h = ground arith
apply_option-IsSensible with_auth_plaintext c h = ground arith
apply_option-IsSensible (with_auth_config none auth) c h = ground arith
apply_option-IsSensible (with_auth_config (some s) auth) c h = ground arith
apply_option-IsSensible (with_insecure_skip_verify skip) c h = ground arith
apply_option-IsSensible (with_health_check_enabled on) c h = ground arith
apply_option-IsSensible (with_reconnect_enabled on) c h = ground arith
apply_option-IsSensible (with_producer_async on) c h = ground arith
apply_option-IsSensible (with_dial_timeout d) c h = ground arith
apply_option-IsSensible (with_connect_timeout d) c h = ground arith
apply_option-IsSensible (with_max_retries d) c h = ground arith
apply_option-IsSensible (with_retry_backoff d) c h = ground arith
apply_option-IsSensible (with_max_retry_backoff d) c h = ground arith
apply_option-IsSensible (with_health_check_timeout d) c h = ground arith
apply_option-IsSensible (with_reconnect_interval d) c h = ground arith
apply_option-IsSensible (with_max_reconnect_delay d) c h = ground arith
apply_option-IsSensible (with_producer_batch_size d) c h = ground arith
apply_option-IsSensible (with_producer_batch_timeout d) c h = ground arith
apply_option-IsSensible (with_producer_max_attempts d) c h = ground arith
apply_option-IsSensible (with_producer_compression d) c h = ground arith
apply_option-IsSensible (with_producer_required_acks d) c h = ground arith
apply_option-IsSensible (with_consumer_group_id id) c h = ground arith
apply_option-IsSensible (with_consumer_topics topics) c h = ground arith
apply_option-IsSensible (with_consumer_min_bytes d) c h = ground arith
apply_option-IsSensible (with_consumer_max_bytes d) c h = ground arith
apply_option-IsSensible (with_consumer_commit_interval d) c h = ground arith
apply_option-IsSensible (with_consumer_start_offset d) c h = ground arith
apply_option-IsSensible (with_consumer_max_wait d) c h = ground arith

apply_options-IsSensible :
    (options : List ClientOption) (c : Config) → IsSensible c → IsSensible (apply_options options c)
unfolding apply_options
apply_options-IsSensible [] c h = h
apply_options-IsSensible (o ∷ options) c h =
    apply_options-IsSensible options (apply_option o c) (apply_option-IsSensible o c h)

default_config-IsSensible : IsSensible default_config
default_config-IsSensible = record {
  authenticated = refl;
  connecting = (refl, refl, refl, refl, refl);
  watching = (refl, refl, refl);
  producing = (refl, refl, refl, refl, refl);
  consuming = (refl, refl, refl, refl);
}

new_client-ok :
    (options : List ClientOption) (c : Config)
    → c ≡ apply_options options default_config
    → no_items c.brokers ≡ false
    → has_strategy c ≡ true
    → new_client options ≡ ok (apply_options options default_config)
unfolding new_client validate_config
new_client-ok options c e given authenticated =
    let made : validate_config c ≡ none = ground arith in
    let fine = subst (λ k. validate_config k ≡ none) e made in ground (arith, fine)

-- Whatever the options are, NewClient gives a client with a sensible configuration that has a broker, or
-- the error about brokers; a strategy is never missing.
pub new_client-IsSensible :
    (options : List ClientOption)
    → let c = apply_options options default_config in
      ((no_items c.brokers ≡ true) × (new_client options ≡ err invalid_brokers))
      ⊎ ((no_items c.brokers ≡ false) × (new_client options ≡ ok c) × IsSensible c)
unfolding new_client validate_config
new_client-IsSensible options =
    let c = apply_options options default_config in
    let sensible = apply_options-IsSensible options default_config default_config-IsSensible in
    elim (Bool-cases (no_items c.brokers)) [
      | inl none_given ↦ inl (none_given, rw (new_client, validate_config, none_given) refl)
      | inr given ↦ inr (given, new_client-ok options c refl given sensible.authenticated, sensible)
    ]
