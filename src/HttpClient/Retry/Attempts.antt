-- ===== src/HttpClient/Retry/Attempts.antt =====
-- `RoundTrip` of pkg/httpclient/transport_retry.go: the attempts that it makes.
use devkit_go.Prelude.{
  ℕ, zero, suc, ◌+◌, ◌≤◌, ◌<◌, ◌≡◌, ◌⊎◌, inl, inr, refl, true, false, List, [], ◌∷◌, ◌++◌, Option,
  some, arith, leb, Bool-cases, Option-cases, ◌==◌, ==_iff,
}
use devkit_go.Prelude.Text.{Text}
use devkit_go.HttpClient.Retry.{
  Reply, Failure, Hook, Transport, Ended, stopped_by, retry_reason, attempt_loop,
}

module _ (t : Transport) (body : Option Text) where
  -- The last attempt: all before it are to be retried; it is not, or no attempt is left, or the
  -- context ends.
  pub record IsLast (first : ℕ) (ended : Ended) : Type 0 where
    pub reached : first ≤ ended.attempts
    pub bounded : (ended.attempts ≡ first) ⊎ (ended.attempts ≤ t.max_attempts)
    pub retried : (i : ℕ) → first ≤ i → i < ended.attempts → t.policy (t.send i body) ≡ true
    pub returned :
        ((ended.reply ≡ t.send ended.attempts body)
          × ((t.policy (t.send ended.attempts body) ≡ false) ⊎ (t.max_attempts ≤ ended.attempts)))
        ⊎ ((e : Failure) × ((t.context_error ended.attempts ≡ some e)
              ⊎ (t.sleep_error ended.attempts ≡ some e))
            × (ended.reply ≡ stopped_by e))

  here :
      (attempt : ℕ) (ended : Ended)
      → ended.attempts ≡ attempt
      → ((ended.reply ≡ t.send attempt body)
          × ((t.policy (t.send attempt body) ≡ false) ⊎ (t.max_attempts ≤ attempt)))
        ⊎ ((e : Failure) × ((t.context_error attempt ≡ some e) ⊎ (t.sleep_error attempt ≡ some e))
            × (ended.reply ≡ stopped_by e))
      → IsLast attempt ended
  here attempt ended e r = record {
    reached = omega (arith, e);
    bounded = inl e;
    retried = λ i low high. absurd (omega (arith, e));
    returned = rw e r;
  }

  later :
      (attempt : ℕ) (ended : Ended)
      → t.policy (t.send attempt body) ≡ true
      → attempt < t.max_attempts
      → IsLast (suc attempt) ended
      → IsLast attempt ended
  later attempt ended p low l = record {
    reached = omega (arith, l.reached);
    bounded = inr (ground (arith, l.bounded));
    retried = λ i from to. elim (Bool-cases (i == attempt)) [
      | inl e ↦ rw ((==_iff i attempt).0 e) p
      | inr e ↦ l.retried i (ground arith) to
    ];
    returned = l.returned;
  }

  attempt_loop-IsLast :
      (fuel attempt : ℕ) (hooks : List Hook)
      → t.max_attempts < fuel + attempt
      → 0 < fuel
      → (ended : Ended) × (attempt_loop t body fuel attempt hooks ≡ some ended)
        × IsLast attempt ended
  unfolding attempt_loop
  attempt_loop-IsLast zero attempt hooks h k = absurd (omega arith)
  attempt_loop-IsLast (suc fuel) attempt hooks h k =
      let reply = t.send attempt body in
      let ended : Reply → List Hook → Ended =
        λ r hs. record { reply = r; attempts = attempt; hooks = hs } in
      let hooks' = hooks ++ (attempt, retry_reason reply) ∷ [] in
      elim (Bool-cases (t.policy reply)) [
        | inr final ↦ (
          ended reply hooks,
          rw final,
          here attempt (ended reply hooks) refl (inl (refl, inl final)),
        )
        | inl retry ↦ elim (Bool-cases (leb t.max_attempts attempt)) [
          | inl spent ↦ (
            ended reply hooks,
            rw (retry, spent),
            here attempt (ended reply hooks) refl (inl (refl, inr (ground arith))),
          )
          | inr left ↦ elim (Option-cases (t.context_error attempt)) [
            | inr (e, done) ↦ (
              ended (stopped_by e) hooks,
              rw (retry, left, done),
              here attempt (ended (stopped_by e) hooks) refl (inr (e, inl done, refl)),
            )
            | inl running ↦ elim (Option-cases (t.sleep_error attempt)) [
              | inr (e, woken) ↦ (
                ended (stopped_by e) hooks',
                rw (retry, left, running, woken),
                here attempt (ended (stopped_by e) hooks') refl (inr (e, inr woken, refl)),
              )
              | inl slept ↦
                  let (final, same, last) =
                    attempt_loop-IsLast fuel (suc attempt) hooks' (ground arith) (ground arith) in
                  (
                    final,
                    rw (retry, left, running, slept) same,
                    later attempt final retry (ground arith) last,
                  )
            ]
          ]
        ]
      ]

-- The loop ends, with the reply of the last attempt or with the error of the context. It makes an
-- attempt again only if the policy says so for the reply of the one before, and it makes no more than
-- the configured number of attempts, but at least one.
pub attempt_loop-ends :
    (t : Transport) (body : Option Text) (hooks : List Hook)
    → (ended : Ended) × (attempt_loop t body (suc t.max_attempts) 1 hooks ≡ some ended)
      × IsLast t body 1 ended
attempt_loop-ends t body hooks =
    attempt_loop-IsLast t body (suc t.max_attempts) 1 hooks (omega arith) (omega arith)
