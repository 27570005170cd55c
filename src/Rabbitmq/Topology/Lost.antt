-- ===== src/Rabbitmq/Topology/Lost.antt =====
-- Where the messages of the queues of SetupDelayedRetryQueue go.
use devkit_go.Prelude.{
  Option, some, ℕ, suc, ◌≡◌, refl, ◌∙◌, arith, Bool, true, false, ◌&&◌, none, List, [], ◌∷◌, ◌++◌,
  if◌then◌else◌,
}
use devkit_go.Prelude.Int.{ℤ, pos, leb_ℤ}
use devkit_go.Prelude.Text.{Text, codes, text_eq, text_eq_refl, text_mem}
use devkit_go.Rabbitmq.Topology.{
  QueueArgs, no_args, retry_queue, declare_queue, Declaration, declare_exchange, bind_queue,
  declare_all, setup_delayed_retry_queue, is_blank, main_exchange, retry_exchange,
  retry_declarations,
}

-- Was the exchange declared as a direct one?
unfoldable pub is_direct : Text → List Declaration → Bool
is_direct e [] = false
is_direct e (declare_exchange name kind durable ∷ ds) =
    let later = is_direct e ds in if text_eq e name then text_eq kind (codes "direct") else later
is_direct e (_ ∷ ds) = is_direct e ds

-- Is the queue bound to the exchange under the key?
unfoldable pub has_binding : Text → Text → Text → List Declaration → Bool
has_binding q key e [] = false
has_binding q key e (bind_queue name k exchange ∷ ds) =
    let later = has_binding q key e ds in
    if text_eq q name && (text_eq key k && text_eq e exchange) then true else later
has_binding q key e (_ ∷ ds) = has_binding q key e ds

-- The arguments of a queue.
unfoldable pub args_of : Text → List Declaration → Option QueueArgs
args_of q [] = none
args_of q (declare_queue name durable args ∷ ds) =
    let later = args_of q ds in if text_eq q name then some args else later
args_of q (_ ∷ ds) = args_of q ds

abbrev or_key : Option Text → Text → Text
or_key none key = key
or_key (some k) key = k

-- The queues that a dead letter of a queue reaches, that was in it under a key: from the dead letter
-- exchange of the queue, under the dead letter key of the queue if it has one.
abbrev pub dead_lettered :
    (List Declaration → Text → Text → List Text) → List Declaration → Text → Text → List Text
dead_lettered route ds q key = elim (args_of q ds) [
  | none ↦ []
  | some args ↦ elim (args.dead_letter_exchange) [
    | none ↦ []
    | some e ↦ route ds e (or_key args.dead_letter_key key)
  ]
]

text_eq-append : (p s t : Text) → text_eq (p ++ s) (p ++ t) ≡ text_eq s t
unfolding text_eq
text_eq-append [] s t = refl
text_eq-append (c ∷ p) s t = ground (arith, text_eq-append p s t)

text_eq_longer : (p : Text) (c : ℕ) (s : Text) → text_eq p (p ++ (c ∷ s)) ≡ false
unfolding text_eq
text_eq_longer [] c s = refl
text_eq_longer (d ∷ p) c s = ground (arith, text_eq_longer p c s)

longer_text_eq : (p : Text) (c : ℕ) (s : Text) → text_eq (p ++ (c ∷ s)) p ≡ false
unfolding text_eq
longer_text_eq [] c s = refl
longer_text_eq (d ∷ p) c s = ground (arith, longer_text_eq p c s)

declare_all-none :
    (n : ℕ) (ds : List Declaration)
    → declare_all (λ k. false) n ds ≡ record { declarations = ds; error = none }
unfolding declare_all
declare_all-none n [] = refl
declare_all-none n (d ∷ ds) = ground (arith, declare_all-none (suc n) ds)

retry_not_main : (name : Text) → text_eq (retry_exchange name) (main_exchange name) ≡ false
unfolding text_eq
retry_not_main name = text_eq-append name (codes ".retry.exchange") (codes ".exchange")

retry_not_dlq :
    (name : Text) → text_eq (retry_exchange name) (name ++ codes ".dlq.exchange") ≡ false
unfolding text_eq
retry_not_dlq name = text_eq-append name (codes ".retry.exchange") (codes ".dlq.exchange")

-- `route` is the broker: the queues that a message with a key reaches from an exchange. The hypothesis
-- is what AMQP says of direct exchanges.
module _ (route : List Declaration → Text → Text → List Text)
    (direct : (ds : List Declaration) (e key q : Text)
      → is_direct e ds ≡ true
      → text_mem q (route ds e key) ≡ has_binding q key e ds)
    (name : Text) (delay : ℤ) where
  abbrev made : List Declaration
  made = retry_declarations name delay

  retry_direct : is_direct (retry_exchange name) made ≡ true
  unfolding is_direct
  retry_direct = ground (
    arith,
    retry_not_main name,
    text_eq_refl (retry_exchange name),
    text_eq_refl (codes "direct"),
  )

  main_direct : is_direct (main_exchange name) made ≡ true
  unfolding is_direct
  main_direct = ground (arith, text_eq_refl (main_exchange name), text_eq_refl (codes "direct"))

  retry_unbound : (q : Text) → has_binding q name (retry_exchange name) made ≡ false
  unfolding has_binding
  retry_unbound q =
      ground
        (arith, retry_not_main name, retry_not_dlq name, text_eq_longer name b'.' (codes "retry"))

  main_bound : has_binding name name (main_exchange name) made ≡ true
  unfolding has_binding
  main_bound = ground (arith, text_eq_refl name, text_eq_refl (main_exchange name))

  main_args :
      args_of name made
      ≡ some (record no_args { dead_letter_exchange = some (retry_exchange name) })
  unfolding args_of
  main_args = ground (arith, text_eq_refl name)

  retry_args :
      args_of (retry_queue name) made
      ≡ some (record {
        message_ttl = some delay;
        max_length = none;
        dead_letter_exchange = some (main_exchange name);
        dead_letter_key = some name;
      })
  unfolding args_of
  retry_args =
      ground (arith, longer_text_eq name b'.' (codes "retry"), text_eq_refl (retry_queue name))

  all_made :
      is_blank name ≡ false
      → leb_ℤ delay (pos 0) ≡ false
      → setup_delayed_retry_queue (λ n. false) name delay
        ≡ record { declarations = made; error = none }
  unfolding setup_delayed_retry_queue
  all_made named positive = ground (arith, named, positive, declare_all-none 0 made)

  -- With a name and a positive delay, and a broker that refuses nothing and routes by a direct exchange
  -- to the queues that are bound under the key of the message, everything is declared, a message with the
  -- name of the main queue as its key reaches that queue, and whatever expires in the retry queue
  -- returns to it; but a message under that key that the main queue rejects reaches no queue.
  pub setup_delayed_retry_queue-loses :
      is_blank name ≡ false
      → leb_ℤ delay (pos 0) ≡ false
      → let d = setup_delayed_retry_queue (λ n. false) name delay in
        (d.error ≡ none)
        × (text_mem name (route d.declarations (main_exchange name) name) ≡ true)
        × ((key : Text)
            → text_mem name (dead_lettered route d.declarations (retry_queue name) key) ≡ true)
        × ((q : Text) → text_mem q (dead_lettered route d.declarations name name) ≡ false)
  setup_delayed_retry_queue-loses named positive = rw (all_made named positive) (
    refl,
    direct made (main_exchange name) name name main_direct ∙ main_bound,
    λ key.
        ground
          (arith, retry_args, direct made (main_exchange name) name name main_direct, main_bound),
    λ q.
        ground (
          arith,
          main_args,
          direct made (retry_exchange name) name q retry_direct,
          retry_unbound q,
        ),
  )
