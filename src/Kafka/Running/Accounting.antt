-- ===== src/Kafka/Running/Accounting.antt =====
-- No error of a consumer is lost but for those that it counts, and its channel is safe to use.
use devkit_go.Prelude.{
  ◌+◌, ◌%◌, ◌^◌, ◌≤◌, ◌≡◌, ◌⊎◌, inl, inr, refl, arith, true, false, List, [], ◌∷◌, ◌++◌,
  append_assoc, length,
}
use devkit_go.Kafka.Running.{
  Consumer, Event, consume_called, error_sent, goroutine_ended, error_received, close_called,
  workers_done, close_timed_out, new_running, consume, send_error, receive, step, steps,
  default_error_channel_size,
}

length-snoc {ℓ} : {A : Type ℓ} (l : List A) (a : A) → length (l ++ (a ∷ [])) ≡ length l + 1
length-snoc [] a = refl
length-snoc (b ∷ l) a = omega (arith, length-snoc l a)

List-cases {ℓ} :
    {A : Type ℓ} (l : List A) → (l ≡ []) ⊎ ((a : A) × ((rest : List A) × (l ≡ a ∷ rest)))
List-cases [] = inl refl
List-cases (a ∷ rest) = inr (a, (rest, refl))

module _ {E : Type 0} where
  -- What the channel accepted is what was taken from it and then what it holds, in order; the counter
  -- counts what it refused.
  abbrev IsAccounted : Consumer E → Type 0
  IsAccounted c =
      (c.received ++ c.error_ch ≡ c.accepted)
      × (length c.error_ch ≤ default_error_channel_size)
      × (c.dropped_errors ≡ c.refused % 2 ^ 64)

  send_error-IsAccounted : (e : E) (c : Consumer E) → IsAccounted c → IsAccounted (send_error e c)
  unfolding send_error
  send_error-IsAccounted e c (all, short, count) =
      let longer = length-snoc c.error_ch e in
      let assoc = append_assoc c.received c.error_ch (e ∷ []) in
      ground (arith, all, short, count, longer, assoc)

  receive-IsAccounted : (c : Consumer E) → IsAccounted c → IsAccounted (receive c)
  unfolding receive
  receive-IsAccounted c (all, short, count) = elim (List-cases c.error_ch) [
    | inl none_left ↦ ground (arith, all, short, count)
    | inr (e, (rest, held)) ↦
        let assoc = append_assoc c.received (e ∷ []) rest in
        ground (arith, all, short, count, assoc)
  ]

  step-IsAccounted : (e : Event E) (c : Consumer E) → IsAccounted c → IsAccounted (step e c)
  unfolding step consume
  step-IsAccounted (consume_called n) c h = ground arith
  step-IsAccounted (error_sent e) c h = ground (arith, send_error-IsAccounted e c h)
  step-IsAccounted goroutine_ended c h = ground arith
  step-IsAccounted error_received c h = receive-IsAccounted c h
  step-IsAccounted close_called c h = ground arith
  step-IsAccounted workers_done c h = ground arith
  step-IsAccounted close_timed_out c h = ground arith

  -- The channel is closed after all goroutines have ended, unless Close stopped waiting for them.
  abbrev IsOrderly : Consumer E → Type 0
  IsOrderly c =
      (c.timed_out ≡ true)
      ⊎ ((c.sent_closed ≡ false)
          × (((c.channel_closed ≡ false) × ((c.closed ≡ true) ⊎ (c.waiting ≡ false)))
              ⊎ ((c.channel_closed ≡ true) × (c.closed ≡ true) × (c.running ≡ 0))))

  step-IsOrderly : (e : Event E) (c : Consumer E) → IsOrderly c → IsOrderly (step e c)
  unfolding step consume send_error receive
  step-IsOrderly (consume_called n) c h = ground arith
  step-IsOrderly (error_sent e) c h = ground arith
  step-IsOrderly goroutine_ended c h = ground arith
  step-IsOrderly error_received c h = ground arith
  step-IsOrderly close_called c h = ground arith
  step-IsOrderly workers_done c h = ground arith
  step-IsOrderly close_timed_out c h = ground arith

  steps-both :
      (events : List (Event E)) (c : Consumer E)
      → IsAccounted c × IsOrderly c
      → IsAccounted (steps events c) × IsOrderly (steps events c)
  unfolding steps
  steps-both [] c h = h
  steps-both (e ∷ events) c (counted, orderly) =
      steps-both events (step e c) (step-IsAccounted e c counted, step-IsOrderly e c orderly)

  -- In every order of steps, the errors that were taken from the channel and then those in it are the
  -- ones that it accepted, in order; it holds 1000 at most; the others are counted, as a uint64; and
  -- nothing is sent on the closed channel unless Close stopped waiting for the goroutines.
  pub steps-accounted :
      (events : List (Event E))
      → let c = steps events new_running in
        (c.received ++ c.error_ch ≡ c.accepted)
        × (length c.error_ch ≤ default_error_channel_size)
        × (c.dropped_errors ≡ c.refused % 2 ^ 64)
        × ((c.sent_closed ≡ false) ⊎ (c.timed_out ≡ true))
  steps-accounted events =
      let ((all, short, count), orderly) =
        steps-both events new_running
          ((refl, omega arith, refl), inr (refl, inl (refl, inr refl))) in
      (all, short, count, ground arith)
