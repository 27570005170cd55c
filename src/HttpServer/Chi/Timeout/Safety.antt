-- ===== src/HttpServer/Chi/Timeout/Safety.antt =====
-- Of the handler and the deadline one writes the response, whatever order they go in.
use devkit_go.Prelude.{
  ◌≡◌, ◌⊎◌, inl, inr, refl, ◌∙◌, ap, arith, Bool, true, false, none, List, [], ◌∷◌,
}
use devkit_go.HttpServer.Chi.Calls.{Call, set_call, add_call, del_call, header_call, body_call}
use devkit_go.HttpServer.Chi.Timeout.{
  TimeoutWriter, new_timeout_writer, tw_call, tw_calls, tw_write_header, tw_write, Race, new_race,
  Waiter, answering, Event, called, finished, received, deadline, answered, drained, step, steps,
  expire, calls_made,
}

abbrev is_answering : Waiter → Bool
is_answering answering = true
is_answering _ = false

-- The deadline did not win: the writer is open, and nothing was written unless it says so.
abbrev IsOpen : Race → Type 0
IsOpen s =
    (s.tw.timed_out ≡ false)
    × ((s.tw.written ≡ true) ⊎ (s.tw.log ≡ []))
    × (is_answering s.waiter ≡ false)

-- The deadline won: its answer is all there is, or it is still to be written.
abbrev IsShut : List Call → Race → Type 0
IsShut timeout s =
    (s.tw.timed_out ≡ true)
    × (s.tw.written ≡ true)
    × (((is_answering s.waiter ≡ true) × (s.tw.log ≡ []))
        ⊎ ((is_answering s.waiter ≡ false) × (s.tw.log ≡ timeout)))

tw_call-in_time : (c : Call) (tw : TimeoutWriter) → (tw_call c tw).timed_out ≡ tw.timed_out
unfolding tw_call tw_write_header tw_write
tw_call-in_time (set_call k v) tw = refl
tw_call-in_time (del_call k) tw = refl
tw_call-in_time (add_call k v) tw = refl
tw_call-in_time (header_call code) tw = ground arith
tw_call-in_time (body_call b) tw = ground arith

tw_call-shut :
    (c : Call) (tw : TimeoutWriter)
    → tw.timed_out ≡ true
    → ((tw_call c tw).log ≡ tw.log) × ((tw_call c tw).written ≡ tw.written)
unfolding tw_call tw_write_header tw_write
tw_call-shut (set_call k v) tw h = (refl, refl)
tw_call-shut (del_call k) tw h = (refl, refl)
tw_call-shut (add_call k v) tw h = (refl, refl)
tw_call-shut (header_call code) tw h = ground arith
tw_call-shut (body_call b) tw h = ground arith

tw_call-fresh :
    (c : Call) (tw : TimeoutWriter)
    → (tw.written ≡ true) ⊎ (tw.log ≡ [])
    → ((tw_call c tw).written ≡ true) ⊎ ((tw_call c tw).log ≡ [])
unfolding tw_call tw_write_header tw_write
tw_call-fresh (set_call k v) tw h = h
tw_call-fresh (del_call k) tw h = h
tw_call-fresh (add_call k v) tw h = h
tw_call-fresh (header_call code) tw h = ground arith
tw_call-fresh (body_call b) tw h = ground arith

module _ (timeout : List Call) (cleans : Bool) where
  step-IsShut : (e : Event) (s : Race) → IsShut timeout s → IsShut timeout (step timeout cleans e s)
  unfolding step expire
  step-IsShut (called c) s h = ground (arith, tw_call-shut c s.tw, tw_call-in_time c s.tw)
  step-IsShut (finished o) s h = ground arith
  step-IsShut received s h = ground arith
  step-IsShut deadline s h = ground arith
  step-IsShut answered s h = ground arith
  step-IsShut drained s h = ground arith

  steps-IsShut :
      (events : List Event) (s : Race)
      → IsShut timeout s
      → IsShut timeout (steps timeout cleans events s)
  unfolding steps
  steps-IsShut [] s h = h
  steps-IsShut (e ∷ events) s h = steps-IsShut events (step timeout cleans e s) (step-IsShut e s h)

  -- An open race stays open, or the deadline shuts it.
  step-IsOpen :
      (e : Event) (s : Race)
      → IsOpen s
      → IsShut timeout (step timeout cleans e s) ⊎ IsOpen (step timeout cleans e s)
  unfolding step expire
  step-IsOpen (called c) s v = ground (arith, tw_call-fresh c s.tw, tw_call-in_time c s.tw)
  step-IsOpen (finished o) s v = ground arith
  step-IsOpen received s v = ground arith
  step-IsOpen deadline s v = ground arith
  step-IsOpen answered s v = ground arith
  step-IsOpen drained s v = ground arith

  -- As long as it is open, the writer takes the calls of the handler and nothing else.
  step-calls :
      (e : Event) (s : Race) (rest : List Event)
      → IsOpen s
      → (step timeout cleans e s).tw.timed_out ≡ false
      → tw_calls (calls_made (step timeout cleans e s).handler rest) (step timeout cleans e s).tw
        ≡ tw_calls (calls_made s.handler (e ∷ rest)) s.tw
  unfolding step expire calls_made tw_calls
  step-calls (called c) s rest v h = ground arith
  step-calls (finished o) s rest v h = ground arith
  step-calls received s rest v h = ground arith
  step-calls deadline s rest v h = ground arith
  step-calls answered s rest v h = ground arith
  step-calls drained s rest v h = ground arith

  steps-cases :
      (events : List Event) (s : Race)
      → IsOpen s
      → IsShut timeout (steps timeout cleans events s)
        ⊎ ((steps timeout cleans events s).tw ≡ tw_calls (calls_made s.handler events) s.tw)
  unfolding steps calls_made tw_calls
  steps-cases [] s v = ground arith
  steps-cases (e ∷ events) s v = elim (step-IsOpen e s v) [
    | inl shut ↦ inl (steps-IsShut events (step timeout cleans e s) shut)
    | inr open' ↦ elim (steps-cases events (step timeout cleans e s) open') [
      | inl shut ↦ inl shut
      | inr same ↦ inr (same ∙ step-calls e s events v open'.0)
    ]
  ]

-- In any order of the calls of a handler, its end, the deadline and what the request does, the calls
-- that reach the writer are all those of the handler through the buffer, as if there were no deadline,
-- or those of the answer alone, or none of either while the answer is still to be written.
pub steps-exclusive :
    (timeout : List Call) (cleans : Bool) (events : List Event)
    → let after = steps timeout cleans events new_race in
      let made = (tw_calls (calls_made none events) new_timeout_writer).log in
      (after.tw.log ≡ made)
      ⊎ ((after.tw.timed_out ≡ true)
          × ((after.tw.log ≡ timeout) ⊎ ((after.waiter ≡ answering) × (after.tw.log ≡ []))))
steps-exclusive timeout cleans events =
    elim (steps-cases timeout cleans events new_race (refl, inr refl, refl)) [
      | inl shut ↦ ground arith
      | inr same ↦ inl (ap (λ tw. tw.log) same)
    ]
