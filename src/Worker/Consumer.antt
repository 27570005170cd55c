-- ===== src/Worker/Consumer.antt =====
-- pkg/worker/consumer/registry.go and runner.go. The map of handlers is a function, with none for a
-- missing key; a nil handler is none. Metrics, spans and logs are left out.
use devkit_go.Prelude.{
  ℕ, suc, ◌≡◌, inl, inr, refl, arith, Option, none, some, List, [], ◌∷◌, if◌then◌else◌, Result, ok,
  err, ◌>>=◌, ok_chain, ap, sym, ◌∙◌, Option-cases, Bool-cases,
}
use devkit_go.Prelude.Text.{Text, text_eq, text_eq_iff}

pub data RegistryError : Type 0 where
  nil_handler : RegistryError
  duplicate_event_type unknown_event_type : Text → RegistryError
  failed : ℕ → RegistryError

pub record Message : Type 0 where
  pub event_type : Text
  pub body : Text

abbrev pub Handler : Type 0
Handler = Message → Option RegistryError

pub record Registration : Type 0 where
  pub event_type : Text
  pub handler : Option Handler

abbrev pub Registry : Type 0
Registry = Text → Option Handler

abbrev pub new_registry : Registry
new_registry t = none

abbrev pub set_handler : Registry → Text → Handler → Registry
set_handler reg event_type h t = if text_eq t event_type then some h else reg t

unfoldable pub register : Text → Option Handler → Registry → Result RegistryError Registry
register event_type none reg = err nil_handler
register event_type (some h) reg = elim (reg event_type) [
  | some old ↦ err (duplicate_event_type event_type)
  | none ↦ ok (set_handler reg event_type h)
]

-- The loop of `NewRunner` over the registrations.
unfoldable pub register_all : List Registration → Registry → Result RegistryError Registry
register_all [] reg = ok reg
register_all (r ∷ rs) reg = do reg' ← register r.event_type r.handler reg; register_all rs reg'

unfoldable pub new_runner : List Registration → Result RegistryError Registry
new_runner rs = register_all rs new_registry

unfoldable pub dispatch : Registry → Message → Option RegistryError
dispatch reg msg = elim (reg msg.event_type) [
  | none ↦ some (unknown_event_type msg.event_type)
  | some h ↦ h msg
]

-- What the loop of `Start` counts: the messages that are handled and those that are not.
pub record Counters : Type 0 where
  pub dispatches : ℕ
  pub errors : ℕ

unfoldable pub handle_message : Registry → Message → Counters → Counters
handle_message reg msg c = elim (dispatch reg msg) [
  | none ↦ record c { dispatches = suc c.dispatches }
  | some e ↦ record c { errors = suc c.errors }
]

-- `Start` over the messages that come before the channel closes or the context ends.
unfoldable pub start : Registry → List Message → Counters → Counters
start reg [] c = c
start reg (msg ∷ msgs) c = start reg msgs (handle_message reg msg c)

-- The first registration of an event type in a list.
unfoldable pub find_registration : List Registration → Text → Option Handler
find_registration [] t = none
find_registration (r ∷ rs) t =
    let later = find_registration rs t in if text_eq t r.event_type then r.handler else later

abbrev or_else : Option Handler → Option Handler → Option Handler
or_else none other = other
or_else (some h) other = some h

-- A registration that succeeds has a handler, and no other one has its event type.
register-ok :
    (event_type : Text) (handler : Option Handler) (reg : Registry) {after : Registry}
    → register event_type handler reg ≡ ok after
    → (h : Handler) × (handler ≡ some h)
      × (reg event_type ≡ none)
      × (set_handler reg event_type h ≡ after)
unfolding register
register-ok event_type none reg e = absurd (ground arith)
register-ok event_type (some h) reg e = elim (Option-cases (reg event_type)) [
  | inl free ↦ (h, refl, free, ground arith)
  | inr (old, taken) ↦ absurd (ground arith)
]

register_all-finds :
    (rs : List Registration) (reg : Registry) {final : Registry} (t : Text)
    → register_all rs reg ≡ ok final
    → final t ≡ or_else (reg t) (find_registration rs t)
unfolding register_all find_registration
register_all-finds [] reg {final} t h =
    let same : reg ≡ final = cc in
    elim (Option-cases (reg t)) [
      | inl e ↦ ap (λ f. f t) (sym same) ∙ ground arith
      | inr (x, e) ↦ ap (λ f. f t) (sym same) ∙ ground arith
    ]
register_all-finds (r ∷ rs) reg {final} t h =
    let (mid, one, rest) = ok_chain (register r.event_type r.handler reg) (register_all rs) h in
    let (handler, has, free, set) = register-ok r.event_type r.handler reg one in
    let later = register_all-finds rs mid {final = final} t rest in
    let here = ap (λ f. f t) set in
    elim (Bool-cases (text_eq t r.event_type)) [
      | inl e ↦
          let same = (text_eq_iff t r.event_type).0 e in
          let none_here = ap reg same ∙ free in ground (arith, later, here, none_here, has, e)
      | inr e ↦ ground (arith, later, here, e)
    ]

-- A runner that is made dispatches every message to the one handler registered for its event type,
-- and refuses it when there is none.
pub new_runner-dispatches :
    (rs : List Registration) {reg : Registry} (msg : Message)
    → new_runner rs ≡ ok reg
    → dispatch reg msg ≡ elim (find_registration rs msg.event_type) [
      | none ↦ some (unknown_event_type msg.event_type)
      | some h ↦ h msg
    ]
unfolding new_runner dispatch
new_runner-dispatches rs {reg} msg h =
    rw (register_all-finds rs new_registry msg.event_type h, dispatch) refl
