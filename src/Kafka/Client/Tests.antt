-- ===== src/Kafka/Client/Tests.antt =====
-- Runs of the Kafka client, its settings and a consumer's goroutines.
use devkit_go.Prelude.{
  ℕ, suc, ◌+◌, ◌%◌, ◌^◌, ◌≡◌, ◌≤◌, ◌<◌, ◌⊎◌, inl, inr, refl, Bool, true, false, Option, none, some,
  List, [], ◌∷◌, ◌++◌, ok, err, length,
}
use devkit_go.Prelude.Int.{pos, negsuc}
use devkit_go.Prelude.Text.{Text, codes}
use devkit_go.Kafka.Auth.{
  Hash, AuthConfig, Dialer, Strategy, plain, confluent, configure, configure-IsSecure, IsSecure,
  scram_mechanism, sha512, scram_sha256, configure_plain,
}
use devkit_go.Kafka.Settings.{
  with_brokers, with_dial_timeout, ClientOption, apply_options, default_config, new_client,
  no_items, invalid_brokers, no_auth,
}
use devkit_go.Kafka.Settings.Sensible.{IsSensible, new_client-IsSensible}
use devkit_go.Kafka.Client.{
  connect_loop, Event, connect_called, connect_ended, close_called, conn_closed, health_failed,
  reconnect_started, attempt_started, attempt_ended, step, steps, new_client_state, connect_refusal,
  use_refusal, health_refusal, is_connected, client_closed,
}
use devkit_go.Kafka.Client.Connecting.{IsFirst, connect_loop-IsFirst}
use devkit_go.Kafka.Client.Refusing.{steps-refused, steps-usable}
use devkit_go.Kafka.Running
use devkit_go.Kafka.Running.{new_running, default_error_channel_size}
use devkit_go.Kafka.Running.Accounting.{steps-accounted}

abbrev always_prepared : Hash → Text → Text → Option Text
always_prepared hash user password = none

abbrev short_hash : AuthConfig
short_hash = record no_auth { algorithm = scram_sha256 }

configured : configure always_prepared plain no_auth ≡ ok (configure_plain always_prepared no_auth)
unfolding configure
configured = refl

configure-IsSecure_example :
    IsSecure always_prepared plain no_auth (configure_plain always_prepared no_auth)
configure-IsSecure_example = configure-IsSecure always_prepared plain no_auth configured

-- The strategy of Confluent does not use the algorithm that is configured.
sha512_used :
    (d : Dialer) × ((configure always_prepared confluent short_hash ≡ ok d)
      × (d.mechanism ≡ some (scram_mechanism sha512 [] [])))
unfolding configure devkit_go.Kafka.Auth.configure_confluent
sha512_used = (_, (refl, refl))

abbrev some_options : List ClientOption
some_options = with_brokers (codes "a" ∷ []) ∷ with_dial_timeout (negsuc 3) ∷ []

new_client-IsSensible_example :
    let c = apply_options some_options default_config in
    ((no_items c.brokers ≡ true) × (new_client some_options ≡ err invalid_brokers))
    ⊎ ((no_items c.brokers ≡ false) × (new_client some_options ≡ ok c) × IsSensible c)
new_client-IsSensible_example = new_client-IsSensible some_options

abbrev second_connects : ℕ → Bool
second_connects attempt = devkit_go.Prelude.ltb 0 attempt

connect_loop-IsFirst_example :
    IsFirst second_connects 4 0 (connect_loop second_connects (pos 30) 4 0 (pos 2))
connect_loop-IsFirst_example = connect_loop-IsFirst second_connects (pos 30) 4 0 (pos 2)

abbrev connecting : List Event
connecting = connect_called ∷ connect_ended true ∷ []

steps-refused_example :
    let c =
      steps true
        (conn_closed ∷ [])
        (step true close_called (steps true connecting new_client_state)) in
    ((connect_refusal c ≡ some client_closed)
      × (use_refusal c ≡ some client_closed)
      × (health_refusal c ≡ some client_closed)
      × (is_connected c ≡ false))
    × (length c.ended ≤ 1)
steps-refused_example = steps-refused true connecting (conn_closed ∷ [])

steps-usable_example :
    let c = steps true connecting new_client_state in
    (is_connected c ≡ false) ⊎ ((use_refusal c ≡ none) × (health_refusal c ≡ none))
steps-usable_example = steps-usable true connecting

-- The connection before a reconnection is never ended.
abbrev reconnecting : List Event
reconnecting =
    connecting
    ++ (health_failed
        ∷ reconnect_started
        ∷ attempt_started
        ∷ attempt_ended true
        ∷ close_called
        ∷ conn_closed
        ∷ [])

first_lost :
    ((steps true reconnecting new_client_state).opened ≡ 2)
    × ((steps true reconnecting new_client_state).ended ≡ 1 ∷ [])
unfolding steps step connect_refusal
first_lost = (refl, refl)

-- A worker that dials while Close runs leaves a connection that nothing ends.
abbrev closing_late : List Event
closing_late =
    connecting
    ++ (health_failed
        ∷ reconnect_started
        ∷ attempt_started
        ∷ close_called
        ∷ conn_closed
        ∷ attempt_ended true
        ∷ [])

last_lost :
    ((steps true closing_late new_client_state).conn ≡ some 1)
    × ((steps true closing_late new_client_state).ended ≡ 0 ∷ [])
unfolding steps step connect_refusal
last_lost = (refl, refl)

abbrev consuming : List (Running.Event ℕ)
consuming =
    Running.consume_called 1
    ∷ Running.error_sent 7
    ∷ Running.close_called
    ∷ Running.error_received
    ∷ []

steps-accounted_example :
    let c = Running.steps consuming new_running in
    (c.received ++ c.error_ch ≡ c.accepted)
    × (length c.error_ch ≤ default_error_channel_size)
    × (c.dropped_errors ≡ c.refused % 2 ^ 64)
    × ((c.sent_closed ≡ false) ⊎ (c.timed_out ≡ true))
steps-accounted_example = steps-accounted consuming

-- When Close stops waiting, a goroutine that goes on sends on the closed channel, which panics.
late_error :
    (Running.steps {E = ℕ}
      (Running.consume_called 1
        ∷ Running.close_called
        ∷ Running.close_timed_out
        ∷ Running.error_sent 7
        ∷ [])
      new_running).sent_closed
    ≡ true
unfolding Running.steps Running.step Running.consume Running.send_error
late_error = refl
