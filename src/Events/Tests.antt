-- ===== src/Events/Tests.antt =====
-- The theorems on the dispatcher with numbers as handlers.
use devkit_go.Prelude.{ℕ, ◌≡◌, refl, [], ◌∷◌, none, some, ◌==◌, ==_iff, if◌then◌else◌, ok}
use devkit_go.Prelude.Text.{Text, codes, text_eq}
use devkit_go.Events.{
  Error, external, EventDispatcher, new_event_dispatcher, handlers_of, register, has, remove,
  Effects, dispatch,
}
use devkit_go.Events.Registry.{IsValid, new_event_dispatcher-IsValid, has-register}
use devkit_go.Events.Dispatching.{IsPartOf, dispatch-IsPartOf}

abbrev created : Text
created = codes "created"

abbrev numbered : ℕ → EventDispatcher ℕ
numbered h = record { handlers = λ t. if text_eq t created then some (h ∷ []) else none }

abbrev both : EventDispatcher ℕ
both = record { handlers = λ t. if text_eq t created then some (1 ∷ 2 ∷ []) else none }

registered : register ◌==◌ new_event_dispatcher created (some 1) ≡ ok (numbered 1)
unfolding register devkit_go.Events.contains new_event_dispatcher
registered = refl

numbered-IsValid : IsValid ◌==◌ ==_iff (numbered 1)
numbered-IsValid =
    (has-register ◌==◌ ==_iff new_event_dispatcher created 1 {ed' = numbered 1} created 1
      (new_event_dispatcher-IsValid ◌==◌ ==_iff) registered).0

-- Every handler takes handler 2 out, and handler 2 fails.
abbrev hostile : Effects ℕ Text
hostile = record {
  event_type = λ event. event;
  handle =
      λ h event ed. (remove ◌==◌ ed event (some 2), if h == 2 then some (external 7) else none);
  context_error = λ ed called. none;
}

dispatch-IsPartOf_example :
    IsPartOf hostile created
      (handlers_of both created)
      both
      []
      (dispatch hostile both (some created))
dispatch-IsPartOf_example = dispatch-IsPartOf hostile both created refl
