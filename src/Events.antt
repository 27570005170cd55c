-- ===== src/Events.antt =====
-- pkg/events/event_dispatcher.go. The lock makes every method one step; `dispatch` holds it only
-- while it copies the handlers, so a handler may change the dispatcher. The map is a function to
-- slices, with none for a key that is not there. A nil handler or event is none.
pub mod Registry
pub mod Dispatching
mod Tests
use devkit_go.Prelude.{
  ℕ, zero, suc, Bool, true, false, not, ◌||◌, List, [], ◌∷◌, ◌++◌, Option, none, some,
  if◌then◌else◌, Result, ok, err,
}
use devkit_go.Prelude.Text.{Text, text_eq}

-- `external` is the error of a handler or of the context.
pub data Error : Type 0 where
  handler_already_registered event_nil handler_nil event_type_empty : Error
  external : ℕ → Error

abbrev pub is_empty : Text → Bool
is_empty [] = true
is_empty (c ∷ s) = false

module _ {H : Type 0} (same : H → H → Bool) where
  -- `slices.Contains`
  unfoldable pub contains : List H → H → Bool
  contains [] h = false
  contains (k ∷ ks) h = same k h || contains ks h

  -- `slices.Index`, with none for -1.
  unfoldable pub index : List H → H → Option ℕ
  index [] h = none
  index (k ∷ ks) h =
      if same k h then some 0 else elim (index ks h) [ none ↦ none | some i ↦ some (suc i) ]

-- `slices.Delete(l, i, i+1)`
unfoldable pub delete_at {ℓ} : {H : Type ℓ} → ℕ → List H → List H
delete_at i [] = []
delete_at zero (k ∷ ks) = ks
delete_at (suc i) (k ∷ ks) = k ∷ delete_at i ks

pub record EventDispatcher (H : Type 0) : Type 0 where
  pub handlers : Text → Option (List H)

unfoldable pub new_event_dispatcher : {H : Type 0} → EventDispatcher H
new_event_dispatcher = record { handlers = λ event_type. none }

-- `ed.handlers[event_type]`, which is empty for a missing key.
abbrev pub handlers_of : {H : Type 0} → EventDispatcher H → Text → List H
handlers_of ed event_type = elim (ed.handlers event_type) [ none ↦ [] | some hs ↦ hs ]

abbrev pub set : {H : Type 0} → EventDispatcher H → Text → Option (List H) → EventDispatcher H
set ed event_type entry = record {
  handlers = λ t. if text_eq t event_type then entry else ed.handlers t;
}

module _ {H : Type 0} (same : H → H → Bool) where
  unfoldable pub register : EventDispatcher H → Text → Option H → Result Error (EventDispatcher H)
  register ed event_type none =
      if is_empty event_type then err event_type_empty else err handler_nil
  register ed event_type (some handler) =
      if is_empty event_type
      then err event_type_empty
      else if contains same (handlers_of ed event_type) handler
      then err handler_already_registered
      else ok (set ed event_type (some (handlers_of ed event_type ++ handler ∷ [])))

  unfoldable pub has : EventDispatcher H → Text → Option H → Bool
  has ed event_type none = false
  has ed event_type (some handler) =
      if is_empty event_type then false else contains same (handlers_of ed event_type) handler

  -- What is stored for the key: an empty slice is taken out of the map.
  abbrev pub entry_of : List H → Option (List H)
  entry_of [] = none
  entry_of (h ∷ hs) = some (h ∷ hs)

  unfoldable pub remove : EventDispatcher H → Text → Option H → EventDispatcher H
  remove ed event_type none = ed
  remove ed event_type (some handler) =
      if is_empty event_type then ed else elim (ed.handlers event_type) [
        | none ↦ ed
        | some hs ↦ elim (index same hs handler) [
          | none ↦ ed
          | some i ↦ set ed event_type (entry_of (delete_at i hs))
        ]
      ]

unfoldable pub clear : {H : Type 0} → EventDispatcher H → EventDispatcher H
clear ed = record { handlers = λ event_type. none }

-- What a dispatch leaves: the dispatcher, the handlers called, and the error, if any.
pub record Outcome (H : Type 0) : Type 0 where
  pub after : EventDispatcher H
  pub called : List H
  pub error : Option Error

-- A handler may change the dispatcher and may fail; the context may be done before any handler.
pub record Effects (H Event : Type 0) : Type 0 where
  pub event_type : Event → Text
  pub handle : H → Event → EventDispatcher H → EventDispatcher H × Option Error
  pub context_error : EventDispatcher H → List H → Option Error

module _ {H Event : Type 0} (effects : Effects H Event) (event : Event) where
  -- The loop over the copy, behind the handlers `called`.
  unfoldable pub run_handlers : List H → List H → EventDispatcher H → Outcome H
  run_handlers called [] ed = record { after = ed; called = called; error = none }
  run_handlers called (h ∷ hs) ed = elim (effects.context_error ed called) [
    | some e ↦ record { after = ed; called = called; error = some e }
    | none ↦
        let (ed', failed) = effects.handle h event ed in
        elim failed [
          | some e ↦ record { after = ed'; called = called ++ h ∷ []; error = some e }
          | none ↦ run_handlers (called ++ h ∷ []) hs ed'
        ]
  ]

module _ {H Event : Type 0} (effects : Effects H Event) where
  unfoldable pub dispatch : EventDispatcher H → Option Event → Outcome H
  dispatch ed none = record { after = ed; called = []; error = some event_nil }
  dispatch ed (some event) =
      if is_empty (effects.event_type event)
      then record { after = ed; called = []; error = some event_type_empty }
      else elim (ed.handlers (effects.event_type event)) [
        | none ↦ record { after = ed; called = []; error = none }
        | some hs ↦ run_handlers effects event [] hs ed
      ]
