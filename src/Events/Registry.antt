-- ===== src/Events/Registry.antt =====
-- pkg/events/event_dispatcher.go as a set of pairs of an event type and a handler.
use devkit_go.Prelude.{
  ℕ, zero, suc, ◌≡◌, ◌≢◌, ◌↔◌, ◌⊎◌, inl, inr, refl, Bool, true, false, not, ◌&&◌, ◌||◌, List, [],
  ◌∷◌, ◌++◌, Option, none, some, arith, Bool-cases, Option-cases, if◌then◌else◌, ok,
}
use devkit_go.Prelude.Text.{Text, text_eq, text_eq_iff}
use devkit_go.Events.{
  is_empty, contains, index, delete_at, EventDispatcher, new_event_dispatcher, handlers_of, set,
  register, has, entry_of, remove, clear,
}

module _ {H : Type 0} (same : H → H → Bool)
    (same_iff : (h k : H) → (same h k ≡ true) ↔ (h ≡ k)) where
  -- No handler stands twice in the list.
  abbrev pub IsUnique : List H → Type 0
  IsUnique [] = Unit
  IsUnique (h ∷ hs) = (contains same hs h ≡ false) × IsUnique hs

  contains-append :
      (hs : List H) (h k : H) → contains same (hs ++ h ∷ []) k ≡ (contains same hs k || same h k)
  unfolding contains
  contains-append [] h k = ground arith
  contains-append (x ∷ hs) h k = ground (arith, contains-append hs h k)

  append-IsUnique :
      (hs : List H) (h : H) → IsUnique hs → contains same hs h ≡ false → IsUnique (hs ++ h ∷ [])
  unfolding contains
  append-IsUnique [] h u n = ground arith
  append-IsUnique (x ∷ hs) h (n', u) n = (
    ground (arith, contains-append hs h x, same_iff x h, same_iff h x),
    append-IsUnique hs h u (ground arith),
  )

  contains-index : (hs : List H) (h : H) → index same hs h ≡ none → contains same hs h ≡ false
  unfolding contains index
  contains-index [] h e = refl
  contains-index (x ∷ hs) h e = ground (arith, contains-index hs h, Option-cases (index same hs h))

  contains-delete_at :
      (hs : List H) (h k : H) {i : ℕ}
      → IsUnique hs
      → index same hs h ≡ some i
      → contains same (delete_at i hs) k ≡ (contains same hs k && not (same k h))
  unfolding contains index delete_at
  contains-delete_at [] h k u e = cc
  contains-delete_at (x ∷ hs) h k {i = zero} (n, u) e = ground (
    arith,
    Option-cases (index same hs h),
    Bool-cases (same x h),
    same_iff x h,
    same_iff x k,
    same_iff k h,
  )
  contains-delete_at (x ∷ hs) h k {i = suc i} (n, u) e = ground (
    arith,
    contains-delete_at hs h k {i = i} u,
    Option-cases (index same hs h),
    same_iff h x,
    same_iff k x,
    same_iff k h,
  )

  delete_at-IsUnique :
      (hs : List H) (h : H) {i : ℕ}
      → IsUnique hs
      → index same hs h ≡ some i
      → IsUnique (delete_at i hs)
  unfolding index delete_at
  delete_at-IsUnique [] h u e = cc
  delete_at-IsUnique (x ∷ hs) h {i = zero} (n, u) e = u
  delete_at-IsUnique (x ∷ hs) h {i = suc i} (n, u) e = (
    ground (arith, contains-delete_at hs h x {i = i} u, Option-cases (index same hs h)),
    delete_at-IsUnique hs h {i = i} u (ground (arith, Option-cases (index same hs h))),
  )

  -- No handler stands twice under a type, and no type is left without handlers.
  pub record IsValid (ed : EventDispatcher H) : Type 0 where
    pub unique : (t : Text) → IsUnique (handlers_of ed t)
    pub kept : (t : Text) → ed.handlers t ≢ some []

  handlers_of-set :
      (ed : EventDispatcher H) (t u : Text) (entry : Option (List H))
      → handlers_of (set ed t entry) u
        ≡ (if text_eq u t then (elim entry [ none ↦ [] | some hs ↦ hs ]) else handlers_of ed u)
  handlers_of-set ed t u entry = ground arith

  set-IsValid :
      (ed : EventDispatcher H) (t : Text) (entry : Option (List H))
      → IsValid ed
      → IsUnique (elim entry [ none ↦ [] | some hs ↦ hs ])
      → entry ≢ some []
      → IsValid (set ed t entry)
  set-IsValid ed t entry v u n = record {
    unique = λ x. elim (Bool-cases (text_eq x t)) [
      | inl e ↦ rw (handlers_of-set ed t x entry, e) u
      | inr e ↦ rw (handlers_of-set ed t x entry, e) (v.unique x)
    ];
    kept = λ x. elim (Bool-cases (text_eq x t)) [ inl e ↦ rw e n | inr e ↦ rw e (v.kept x) ];
  }

  pub new_event_dispatcher-IsValid : IsValid new_event_dispatcher
  unfolding new_event_dispatcher
  new_event_dispatcher-IsValid = record { unique = λ t. tt; kept = λ t h. ground arith }

  clear-IsValid : (ed : EventDispatcher H) → IsValid (clear ed)
  unfolding clear
  clear-IsValid ed = record { unique = λ t. tt; kept = λ t h. ground arith }

  -- A registration that succeeds.
  register-ok :
      (ed : EventDispatcher H) (t : Text) (h : H) {ed' : EventDispatcher H}
      → register same ed t (some h) ≡ ok ed'
      → (is_empty t ≡ false)
        × (contains same (handlers_of ed t) h ≡ false)
        × (ed' ≡ set ed t (some (handlers_of ed t ++ h ∷ [])))
  unfolding register
  register-ok ed t h e = ground arith

  append_some : (hs : List H) (h : H) → ◌≢◌ {A = Option (List H)} (some (hs ++ h ∷ [])) (some [])
  append_some [] h e = ground arith
  append_some (x ∷ hs) h e = ground arith

  register-IsValid :
      (ed : EventDispatcher H) (t : Text) (h : H) {ed' : EventDispatcher H}
      → IsValid ed
      → register same ed t (some h) ≡ ok ed'
      → IsValid ed'
  register-IsValid ed t h v e =
      let (_, n, e') = register-ok ed t h e in
      rw e' (
        set-IsValid ed t (some (handlers_of ed t ++ h ∷ [])) v
          (append-IsUnique (handlers_of ed t) h (v.unique t) n) (append_some (handlers_of ed t) h))

  -- A handler that could be registered is then registered besides those that were, and the
  -- dispatcher stays valid.
  pub has-register :
      (ed : EventDispatcher H) (t : Text) (h : H) {ed' : EventDispatcher H} (u : Text) (k : H)
      → IsValid ed
      → register same ed t (some h) ≡ ok ed'
      → IsValid ed'
        × (has same ed t (some h) ≡ false)
        × (has same ed' u (some k) ≡ (has same ed u (some k) || (text_eq u t && same h k)))
  unfolding has
  has-register ed t h {ed'} u k v e =
      let (filled, n, e') = register-ok ed t h e in
      (
        register-IsValid ed t h v e,
        ground arith,
        rw e' (
            ground (
              arith,
              handlers_of-set ed t u (some (handlers_of ed t ++ h ∷ [])),
              contains-append (handlers_of ed t) h k,
              text_eq_iff u t,
            )),
      )

  -- What a removal does: nothing if the handler is not there, else it deletes it.
  remove-cases :
      (ed : EventDispatcher H) (t : Text) (h : H)
      → ((remove same ed t (some h) ≡ ed) × (has same ed t (some h) ≡ false))
        ⊎ ((is_empty t ≡ false)
            × (i : ℕ) × (index same (handlers_of ed t) h ≡ some i)
            × (remove same ed t (some h)
                ≡ set ed t (entry_of same (delete_at i (handlers_of ed t)))))
  unfolding remove has contains index
  remove-cases ed t h = elim (Option-cases (ed.handlers t)) [
    | inl e ↦ inl (ground arith)
    | inr (hs, e) ↦ elim (Option-cases (index same hs h)) [
      | inl f ↦ inl (ground (arith, contains-index hs h))
      | inr (i, f) ↦ elim (Bool-cases (is_empty t)) [
        | inl b ↦ inl (ground arith)
        | inr b ↦ inr (b, i, rw (e, handlers_of, index) f, ground arith)
      ]
    ]
  ]

  entry_of_lem : (hs : List H) → elim (entry_of same hs) [ none ↦ [] | some ks ↦ ks ] ≡ hs
  entry_of_lem [] = refl
  entry_of_lem (h ∷ hs) = refl

  entry_of-some : (hs : List H) → entry_of same hs ≢ some []
  entry_of-some [] e = ground arith
  entry_of-some (h ∷ hs) e = ground arith

  removed-IsValid :
      (ed : EventDispatcher H) (t : Text) (h : H) (i : ℕ)
      → IsValid ed
      → index same (handlers_of ed t) h ≡ some i
      → IsValid (set ed t (entry_of same (delete_at i (handlers_of ed t))))
  removed-IsValid ed t h i v f =
      let left = delete_at i (handlers_of ed t) in
      set-IsValid ed t (entry_of same left) v
        (rw (entry_of_lem left) (delete_at-IsUnique (handlers_of ed t) h {i = i} (v.unique t) f))
        (entry_of-some left)

  -- After a removal in a valid dispatcher the handler is not registered under the type, the others
  -- are as before, and the dispatcher stays valid.
  pub has-remove :
      (ed : EventDispatcher H) (t : Text) (h : H) (u : Text) (k : H)
      → IsValid ed
      → IsValid (remove same ed t (some h))
        × (has same (remove same ed t (some h)) u (some k)
            ≡ (has same ed u (some k) && not (text_eq u t && same h k)))
  has-remove ed t h u k v = elim (remove-cases ed t h) [
    | inl (e, n) ↦ (rw e v, rw e (unfold has in ground (arith, text_eq_iff u t, same_iff h k)))
    | inr (filled, i, f, e) ↦
        let left = delete_at i (handlers_of ed t) in
        (
          rw e (removed-IsValid ed t h i v f),
          rw e (
              unfold has in
              ground (
                arith,
                handlers_of-set ed t u (entry_of same left),
                entry_of_lem left,
                contains-delete_at (handlers_of ed t) h k {i = i} (v.unique t) f,
                text_eq_iff u t,
                same_iff h k,
                same_iff k h,
              )),
        )
  ]
