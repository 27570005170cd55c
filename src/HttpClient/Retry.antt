-- ===== src/HttpClient/Retry.antt =====
-- pkg/httpclient/retry_policy.go and transport_retry.go. The transport below, the context, the clock
-- and the random numbers are parameters; draining a body is left out.
pub mod Attempts
pub mod Backoff
mod Tests
use devkit_go.Prelude.{
  ℕ, zero, suc, ◌+◌, ◌-◌, ◌*◌, ◌^◌, Bool, true, false, not, ◌||◌, List, [], ◌∷◌, ◌++◌, length,
  Option, none, some, ltb, leb, ◌==◌, if◌then◌else◌, Result, ok, err, panic,
}
use devkit_go.Prelude.Int.{ℤ, pos, ltb_ℤ, leb_ℤ}
use devkit_go.Prelude.Int64.{mul64, wrap64}
use devkit_go.Prelude.Text.{Text, codes}
use devkit_go.Prelude.Decimal.{format_nat}

-- An error of the transport, of the context, or of the body.
pub data Failure : Type 0 where
  canceled deadline_exceeded request_body_too_large : Failure
  network : ℕ → Failure

-- What `RoundTrip` returns: an error, and the status of a response.
pub record Reply : Type 0 where
  pub error : Option Failure
  pub status : Option ℕ

-- `errors.Is` for the errors of a context.
abbrev pub is_context_error : Failure → Bool
is_context_error canceled = true
is_context_error deadline_exceeded = true
is_context_error _ = false

unfoldable pub default_retry_policy : Reply → Bool
default_retry_policy reply = elim reply.error [
  | some e ↦ not (is_context_error e)
  | none ↦ elim reply.status [ none ↦ false | some status ↦ leb 500 status ]
]

unfoldable pub idempotent_retry_policy : Reply → Bool
idempotent_retry_policy reply = elim reply.error [
  | some e ↦ not (is_context_error e)
  | none ↦ elim reply.status [
    | none ↦ false
    | some status ↦ if leb 500 status then true else status == 429
  ]
]

unfoldable pub no_retry_policy : Reply → Bool
no_retry_policy reply = false

unfoldable pub retry_reason : Reply → Text
retry_reason reply = elim reply.error [
  | some e ↦ codes "network_error"
  | none ↦ elim reply.status [
    | some status ↦ codes "http_" ++ format_nat status
    | none ↦ codes "unknown"
  ]
]

abbrev pub max_backoff : ℕ
max_backoff = 30 * 10 ^ 9

abbrev pub min_ℤ : ℤ → ℤ → ℤ
min_ℤ a b = if ltb_ℤ b a then b else a

-- `rand.Int63n` is a parameter.
unfoldable pub calculate_backoff : (ℤ → ℤ) → ℤ → ℕ → ℤ
calculate_backoff int63n backoff attempt =
    if attempt == 0
    then pos 0
    else let exponential =
        min_ℤ (mul64 backoff (wrap64 (pos (2 ^ (attempt - 1))))) (pos max_backoff) in
      if leb_ℤ exponential (pos 0) then pos 0 else int63n exponential

-- `io.LimitReader`
unfoldable pub limit_reader : ℕ → Text → Text
limit_reader zero body = []
limit_reader (suc n) [] = []
limit_reader (suc n) (c ∷ body) = c ∷ limit_reader n body

-- A body: the bytes that reading it gives, and the error of closing it.
pub record Body : Type 0 where
  pub content : Result Failure Text
  pub close_error : Option Failure

abbrev pub close_body : Option Failure → Text → Result Failure (Option Text)
close_body none bytes = ok (some bytes)
close_body (some e) bytes = err e

unfoldable pub buffer_body : ℕ → Option Body → Result Failure (Option Text)
buffer_body max_body_size none = ok none
buffer_body max_body_size (some body) = elim body.content [
  | err e ↦ err e
  | panic ↦ panic
  | ok content ↦
      let bytes = limit_reader (suc max_body_size) content in
      if ltb max_body_size (length bytes)
      then err request_body_too_large
      else close_body body.close_error bytes
]

-- A call of the hook: the attempt and the reason.
abbrev pub Hook : Type 0
Hook = ℕ × Text

pub record Transport : Type 0 where
  pub max_attempts : ℕ
  pub policy : Reply → Bool
  pub send : ℕ → Option Text → Reply  -- base.RoundTrip in an attempt
  pub context_error : ℕ → Option Failure  -- ctx.Err() behind an attempt
  pub sleep_error : ℕ → Option Failure  -- of a context that ends in the sleep behind an attempt

pub record Ended : Type 0 where
  pub reply : Reply
  pub attempts : ℕ
  pub hooks : List Hook

abbrev pub stopped_by : Failure → Reply
stopped_by e = record { error = some e; status = none }

module _ (t : Transport) (body : Option Text) where
  -- The loop on fuel; none if it does not suffice.
  unfoldable pub attempt_loop : ℕ → ℕ → List Hook → Option Ended
  attempt_loop zero attempt hooks = none
  attempt_loop (suc fuel) attempt hooks =
      let reply = t.send attempt body in
      let hooks' = hooks ++ (attempt, retry_reason reply) ∷ [] in
      let again = attempt_loop fuel (suc attempt) hooks' in
      if not (t.policy reply)
      then some (record { reply = reply; attempts = attempt; hooks = hooks })
      else if leb t.max_attempts attempt
      then some (record { reply = reply; attempts = attempt; hooks = hooks })
      else elim (t.context_error attempt) [
        | some e ↦ some (record { reply = stopped_by e; attempts = attempt; hooks = hooks })
        | none ↦ elim (t.sleep_error attempt) [
          | some e ↦ some (record { reply = stopped_by e; attempts = attempt; hooks = hooks' })
          | none ↦ again
        ]
      ]

-- `RoundTrip`, which calls the hook once before the first attempt.
unfoldable pub round_trip : Transport → ℕ → Option Body → Result Failure (Option Ended)
round_trip t max_body_size body = elim (buffer_body max_body_size body) [
  | err e ↦ err e
  | panic ↦ panic
  | ok bytes ↦ ok (attempt_loop t bytes (suc t.max_attempts) 1 ((0, []) ∷ []))
]
