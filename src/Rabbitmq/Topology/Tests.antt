-- ===== src/Rabbitmq/Topology/Tests.antt =====
-- A broker that routes by direct exchanges, and the queues of a delayed retry.
use devkit_go.Prelude.{◌≡◌, refl, arith, true, false, ◌&&◌, none, List, [], ◌∷◌, if◌then◌else◌}
use devkit_go.Prelude.Int.{pos}
use devkit_go.Prelude.Text.{Text, codes, text_eq, text_mem}
use devkit_go.Rabbitmq.Topology.{
  Declaration, declare_exchange, declare_queue, bind_queue, setup_delayed_retry_queue,
  main_exchange, retry_queue,
}
use devkit_go.Rabbitmq.Topology.Lost.{
  is_direct, has_binding, dead_lettered, setup_delayed_retry_queue-loses,
}

unfoldable route_direct : List Declaration → Text → Text → List Text
route_direct [] e key = []
route_direct (bind_queue name k exchange ∷ ds) e key =
    let later = route_direct ds e key in
    if text_eq key k && text_eq e exchange then name ∷ later else later
route_direct (_ ∷ ds) e key = route_direct ds e key

all_bound :
    (ds : List Declaration) (e key q : Text)
    → text_mem q (route_direct ds e key) ≡ has_binding q key e ds
unfolding text_mem route_direct has_binding
all_bound [] e key q = refl
all_bound (declare_exchange name kind durable ∷ ds) e key q = all_bound ds e key q
all_bound (declare_queue name durable args ∷ ds) e key q = all_bound ds e key q
all_bound (bind_queue name k exchange ∷ ds) e key q = ground (arith, all_bound ds e key q)

routes_bound :
    (ds : List Declaration) (e key q : Text)
    → is_direct e ds ≡ true
    → text_mem q (route_direct ds e key) ≡ has_binding q key e ds
routes_bound ds e key q h = all_bound ds e key q

setup_delayed_retry_queue-loses_example :
    let d = setup_delayed_retry_queue (λ n. false) (codes "q") (pos 5) in
    (d.error ≡ none)
    × (text_mem (codes "q") (route_direct d.declarations (main_exchange (codes "q")) (codes "q"))
        ≡ true)
    × ((key : Text)
        → text_mem
            (codes "q")
            (dead_lettered route_direct d.declarations (retry_queue (codes "q")) key)
          ≡ true)
    × ((q : Text)
        → text_mem q (dead_lettered route_direct d.declarations (codes "q") (codes "q")) ≡ false)
setup_delayed_retry_queue-loses_example =
    setup_delayed_retry_queue-loses route_direct routes_bound (codes "q") (pos 5) refl refl
