-- ===== src/Observability/Tests.antt =====
-- A validator of labels.
use devkit_go.Prelude.{
  ℕ, ◌≡◌, ◌↔◌, ◌⊎◌, ◌+◌, refl, true, false, ◌&&◌, leb, none, [], ◌∷◌, if◌then◌else◌,
}
use devkit_go.Prelude.Text.{codes}
use devkit_go.Observability.Validation.{
  CardinalityValidator, validate, is_blocked, add_blocked_label,
}
use devkit_go.Observability.Validation.Blocking.{AreAllowed, validate-add}

abbrev ascii_lower : ℕ → ℕ
ascii_lower c = if leb b'A' c && leb c b'Z' then c + 32 else c

abbrev a_validator : CardinalityValidator
a_validator = record { blocked_labels = codes "id" ∷ []; enabled = true }

validate-add_example :
    ((validate ascii_lower ascii_lower a_validator (codes "Id" ∷ []) ≡ none)
      ↔ AreAllowed ascii_lower ascii_lower a_validator (codes "Id" ∷ []))
    × (is_blocked ascii_lower ascii_lower
          (add_blocked_label ascii_lower ascii_lower (codes "Ab") a_validator)
          (codes "Ab")
        ≡ true)
    × ((is_blocked ascii_lower ascii_lower a_validator (codes "ID") ≡ false)
        ⊎ (is_blocked ascii_lower ascii_lower
              (add_blocked_label ascii_lower ascii_lower (codes "Ab") a_validator)
              (codes "ID")
            ≡ true))
validate-add_example =
    validate-add ascii_lower ascii_lower a_validator (codes "Id" ∷ []) (codes "Ab") (codes "ID")
      refl (refl, (refl, tt))
