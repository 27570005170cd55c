-- ===== src/Events/Dispatching.antt =====
-- `Dispatch` of pkg/events/event_dispatcher.go: which handlers it calls.
use devkit_go.Prelude.{
  ◌≡◌, ◌≢◌, ◌⊎◌, inl, inr, refl, sym, ◌∙◌, ap, false, List, [], ◌∷◌, ◌++◌, append_assoc, append-nil,
  none, some, arith, Option-cases,
}
use devkit_go.Events.{
  Error, is_empty, EventDispatcher, handlers_of, Outcome, Effects, run_handlers, dispatch,
}

module _ {H Event : Type 0} (effects : Effects H Event) (event : Event) where
  -- The dispatcher after the given handlers, one after the other.
  pub applied : List H → EventDispatcher H → EventDispatcher H
  applied [] ed = ed
  applied (h ∷ hs) ed = applied hs (effects.handle h event ed).0

  -- The outcome `o` of calling a first part of `hs`, all of it unless there is an error.
  pub record IsPartOf (hs : List H) (ed : EventDispatcher H) (called : List H) (o : Outcome H)
      : Type 0 where
    pub ran : List H
    pub rest : List H
    pub whole : hs ≡ ran ++ rest
    pub logged : o.called ≡ called ++ ran
    pub left : o.after ≡ applied ran ed
    pub finished : (o.error ≢ none) ⊎ (rest ≡ [])

  stopped :
      (h : H) (hs : List H) (ed : EventDispatcher H) (called : List H) (e : Error)
      → IsPartOf (h ∷ hs) ed called (record { after = ed; called = called; error = some e })
  unfolding applied
  stopped h hs ed called e = record {
    ran = [];
    rest = h ∷ hs;
    whole = refl;
    logged = sym (append-nil called);
    left = refl;
    finished = inl (λ f. ground arith);
  }

  failed :
      (h : H) (hs : List H) (ed : EventDispatcher H) (called : List H) (e : Error)
      → IsPartOf (h ∷ hs) ed called (record {
        after = (effects.handle h event ed).0;
        called = called ++ h ∷ [];
        error = some e;
      })
  unfolding applied
  failed h hs ed called e = record {
    ran = h ∷ [];
    rest = hs;
    whole = refl;
    logged = refl;
    left = refl;
    finished = inl (λ f. ground arith);
  }

  more :
      (h : H) (hs : List H) (ed : EventDispatcher H) (called : List H) (o : Outcome H)
      → IsPartOf hs (effects.handle h event ed).0 (called ++ h ∷ []) o
      → IsPartOf (h ∷ hs) ed called o
  unfolding applied
  more h hs ed called o p = record {
    ran = h ∷ p.ran;
    rest = p.rest;
    whole = ap (λ l. h ∷ l) p.whole;
    logged = p.logged ∙ append_assoc called (h ∷ []) p.ran;
    left = p.left;
    finished = p.finished;
  }

  run_handlers-IsPartOf :
      (called hs : List H) (ed : EventDispatcher H)
      → IsPartOf hs ed called (run_handlers effects event called hs ed)
  unfolding run_handlers applied
  run_handlers-IsPartOf called [] ed = record {
    ran = [];
    rest = [];
    whole = refl;
    logged = sym (append-nil called);
    left = refl;
    finished = inr refl;
  }
  run_handlers-IsPartOf called (h ∷ hs) ed = elim (Option-cases (effects.context_error ed called)) [
    | inr (e, f) ↦ rw (f, run_handlers) (stopped h hs ed called e)
    | inl f ↦ elim (Option-cases (effects.handle h event ed).1) [
      | inr (e, g) ↦ rw (f, g, run_handlers) (failed h hs ed called e)
      | inl g ↦
          rw (f, g, run_handlers)
            (more h hs ed called _
              (run_handlers-IsPartOf (called ++ h ∷ []) hs (effects.handle h event ed).0))
    ]
  ]

-- A dispatch of an event with a type calls handlers that were registered for the type when it
-- started, in order from the first one on, whatever they do to the dispatcher; it leaves the
-- dispatcher as they leave it, and it calls all of them unless it returns an error.
pub dispatch-IsPartOf :
    {H Event : Type 0} (effects : Effects H Event) (ed : EventDispatcher H) (event : Event)
    → is_empty (effects.event_type event) ≡ false
    → IsPartOf effects event
        (handlers_of ed (effects.event_type event))
        ed
        []
        (dispatch effects ed (some event))
unfolding dispatch
dispatch-IsPartOf effects ed event h =
    elim (Option-cases (ed.handlers (effects.event_type event))) [
      | inl f ↦
          rw (h, f, handlers_of)
            (record {
              ran = [];
              rest = [];
              whole = refl;
              logged = refl;
              left = unfold applied in refl;
              finished = inr refl;
            })
      | inr (hs, f) ↦ rw (h, f, handlers_of) (run_handlers-IsPartOf effects event [] hs ed)
    ]
