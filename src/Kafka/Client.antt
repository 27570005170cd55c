-- ===== src/Kafka/Client.antt =====
-- pkg/messaging/kafka/client.go: the attempts of Connect, and the client as steps of its callers, of Close
-- and of the reconnect worker. A connection is the number of its dial; what is done under the mutex is
-- one step. Times, logs and the dialer are left out.
pub mod Connecting
pub mod Refusing
mod Tests
use devkit_go.Prelude.{
  ℕ, zero, suc, ◌+◌, ◌-◌, Bool, true, false, not, ◌&&◌, Option, none, some, List, [], ◌∷◌, ◌++◌,
  if◌then◌else◌, ◌==◌, ltb,
}
use devkit_go.Prelude.Int.{ℤ, pos, ltb_ℤ}
use devkit_go.Prelude.Int64.{mul64}

unfoldable pub calculate_backoff : ℤ → ℤ → ℤ
calculate_backoff current max =
    let next = mul64 current (pos 2) in if ltb_ℤ max next then max else next

-- What came of the attempts: their number, whether the last one connected, and the waits before them.
pub record Attempts : Type 0 where
  pub made : ℕ
  pub success : Bool
  pub waits : List ℤ

-- `left` attempts are left, `dial` tells which of them connect.
unfoldable pub connect_loop : (ℕ → Bool) → ℤ → ℕ → ℕ → ℤ → Attempts
connect_loop dial max zero attempt backoff = record { made = 0; success = false; waits = [] }
connect_loop dial max (suc left) attempt backoff =
    let later =
      if attempt == 0
      then connect_loop dial max left (suc attempt) backoff
      else connect_loop dial max left (suc attempt) (calculate_backoff backoff max) in
    let wait = if attempt == 0 then [] else backoff ∷ [] in
    if dial attempt
    then record { made = 1; success = true; waits = wait }
    else record { made = suc later.made; success = later.success; waits = wait ++ later.waits }

pub data ClientError : Type 0 where
  client_closed client_already_connected client_not_connected : ClientError

-- The worker waits for the ticker, has to look whether it should reconnect, tries, dials, or is gone.
pub data Worker : Type 0 where
  absent watching checking trying dialing stopped : Worker

-- Close has set its flags, or closed the connection too.
pub data Closing : Type 0 where
  not_closing flagged finished : Closing

-- `connecting` counts the calls of Connect that passed their checks and have not ended; `ended` holds the
-- connections that were closed.
pub record Client : Type 0 where
  pub closed : Bool
  pub connected : Bool
  pub conn : Option ℕ
  pub opened : ℕ
  pub ended : List ℕ
  pub connecting : ℕ
  pub worker : Worker
  pub closing : Closing

abbrev pub new_client_state : Client
new_client_state = record {
  closed = false;
  connected = false;
  conn = none;
  opened = 0;
  ended = [];
  connecting = 0;
  worker = absent;
  closing = not_closing;
}

unfoldable pub connect_refusal : Client → Option ClientError
connect_refusal c =
    if c.closed
    then some client_closed
    else if c.connected
    then some client_already_connected
    else none

-- What NewProducer and NewConsumer check first.
unfoldable pub use_refusal : Client → Option ClientError
use_refusal c =
    if c.closed
    then some client_closed
    else if not c.connected
    then some client_not_connected
    else none

-- HealthCheck asks for the connection too.
unfoldable pub health_refusal : Client → Option ClientError
health_refusal c = elim (use_refusal c) [
  | some e ↦ some e
  | none ↦ elim (c.conn) [ none ↦ some client_not_connected | some n ↦ none ]
]

unfoldable pub is_connected : Client → Bool
is_connected c = c.connected && not c.closed

-- connectInternal overwrites the connection.
abbrev pub dialed : Client → Client
dialed c = record c { conn = some c.opened; opened = c.opened + 1; connected = true }

pub data Event : Type 0 where
  connect_called close_called conn_closed : Event
  connect_ended attempt_ended : Bool → Event
  health_failed reconnect_started attempt_started attempts_over worker_stopped : Event

abbrev pub is_watching : Worker → Bool
is_watching watching = true
is_watching _ = false

abbrev pub is_checking : Worker → Bool
is_checking checking = true
is_checking _ = false

abbrev pub is_trying : Worker → Bool
is_trying trying = true
is_trying _ = false

abbrev pub is_dialing : Worker → Bool
is_dialing dialing = true
is_dialing _ = false

abbrev pub close_conn : Client → Client
close_conn c = elim (c.conn) [
  | none ↦ record c { closing = finished }
  | some n ↦ record c { conn = none; ended = c.ended ++ (n ∷ []); closing = finished }
]

-- `reconnects` is reconnectEnabled.
module _ (reconnects : Bool) where
  abbrev pub start_worker : Client → Client
  start_worker c = elim (c.worker) [
    | absent ↦ if reconnects then record c { worker = watching } else c
    | watching ↦ c
    | checking ↦ c
    | trying ↦ c
    | dialing ↦ c
    | stopped ↦ c
  ]

  -- An event that cannot happen changes nothing.
  unfoldable pub step : Event → Client → Client
  step connect_called c = elim (connect_refusal c) [
    | none ↦ record c { connecting = c.connecting + 1 }
    | some e ↦ c
  ]
  step (connect_ended success) c =
      if ltb 0 c.connecting
      then (if success
          then start_worker (dialed (record c { connecting = c.connecting - 1 }))
          else record c { connecting = c.connecting - 1 })
      else c
  step close_called c = elim (c.closing) [
    | not_closing ↦ record c { closed = true; connected = false; closing = flagged }
    | flagged ↦ c
    | finished ↦ c
  ]
  step conn_closed c = elim (c.closing) [ flagged ↦ close_conn c | not_closing ↦ c | finished ↦ c ]
  step health_failed c =
      if is_watching c.worker && not c.closed
      then record c { connected = false; worker = checking }
      else c
  step reconnect_started c =
      if is_checking c.worker
      then record c { worker = if c.connected then watching else trying }
      else c
  step attempt_started c =
      if is_trying c.worker then record c { worker = if c.closed then watching else dialing } else c
  step (attempt_ended success) c =
      if is_dialing c.worker
      then (if success
          then dialed (record c { worker = watching })
          else record c { worker = trying })
      else c
  step attempts_over c = if is_trying c.worker then record c { worker = watching } else c
  step worker_stopped c =
      if is_watching c.worker && c.closed then record c { worker = stopped } else c

  unfoldable pub steps : List Event → Client → Client
  steps [] c = c
  steps (e ∷ events) c = steps events (step e c)
