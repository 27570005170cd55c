-- ===== src/Observability/Validation/Blocking.antt =====
-- Which fields a CardinalityValidator accepts.
use devkit_go.Prelude.{
  ℕ, ◌≡◌, ◌↔◌, ◌⊎◌, refl, ap₂, arith, true, false, none, List, [], ◌∷◌, map, All,
}
use devkit_go.Prelude.Text.{Text, text_eq_refl}
use devkit_go.Observability.Validation.{
  CardinalityValidator, to_lower, equal_fold, any_blocks, is_blocked, validate_keys, validate,
  add_blocked_label,
}

module _ (lower fold : ℕ → ℕ) where
  -- No key is blocked.
  abbrev pub AreAllowed : CardinalityValidator → List Text → Type 0
  AreAllowed v keys = All (λ key. is_blocked lower fold v key ≡ false) keys

  validate_keys-AreAllowed :
      (v : CardinalityValidator) (keys : List Text)
      → validate_keys lower fold v.blocked_labels keys ≡ none
      → AreAllowed v keys
  unfolding validate_keys is_blocked
  validate_keys-AreAllowed v [] h = tt
  validate_keys-AreAllowed v (key ∷ keys) h =
      (ground arith, validate_keys-AreAllowed v keys (ground arith))

  AreAllowed-validate_keys :
      (v : CardinalityValidator) (keys : List Text)
      → AreAllowed v keys
      → validate_keys lower fold v.blocked_labels keys ≡ none
  unfolding validate_keys is_blocked
  AreAllowed-validate_keys v [] h = refl
  AreAllowed-validate_keys v (key ∷ keys) (first, h) =
      ground (arith, first, AreAllowed-validate_keys v keys h)

  fold_lower :
      (label : Text)
      → All (λ c. fold (lower c) ≡ fold c) label
      → map fold (to_lower lower fold label) ≡ map fold label
  fold_lower [] h = refl
  fold_lower (c ∷ label) (e, h) = ap₂ ◌∷◌ e (fold_lower label h)

  -- An enabled validator accepts fields exactly if none of their keys is blocked; and a label that is added,
  -- whose characters fold like their lower case, is then blocked, as is all that was before.
  pub validate-add :
      (v : CardinalityValidator) (keys : List Text) (label other : Text)
      → v.enabled ≡ true
      → All (λ c. fold (lower c) ≡ fold c) label
      → ((validate lower fold v keys ≡ none) ↔ AreAllowed v keys)
        × (is_blocked lower fold (add_blocked_label lower fold label v) label ≡ true)
        × ((is_blocked lower fold v other ≡ false)
            ⊎ (is_blocked lower fold (add_blocked_label lower fold label v) other ≡ true))
  unfolding validate is_blocked add_blocked_label any_blocks equal_fold
  validate-add v keys label other on same = (
    (
      λ h. validate_keys-AreAllowed v keys (ground arith),
      λ h. ground (arith, on, AreAllowed-validate_keys v keys h),
    ),
    rw (fold_lower label same, text_eq_refl (map fold label)) refl,
    ground arith,
  )
