-- ===== src/Linq/Reference.antt =====
-- The functions of pkg/linq/slices.go against one description: the elements that pass, in order.
use devkit_go.Prelude.{
  ◌≡◌, ◌↔◌, refl, sym, ◌∙◌, ap, Bool, true, not, List, [], ◌∷◌, ◌++◌, append_assoc, append-nil,
  none, some, arith, Bool-cases, inl, inr, if◌then◌else◌,
}
use devkit_go.Linq.{
  Slice, elements, append, filter_loop, filter, find_loop, find, remove_loop, remove, add_to,
  group_loop, group_by,
}

module _ {T : Type 0} where
  -- The elements that pass.
  pub keep : (T → Bool) → List T → List T
  keep p [] = []
  keep p (x ∷ xs) = if p x then x ∷ keep p xs else keep p xs

  -- The slice that a loop of `append` from a nil slice gives.
  abbrev pub slice_of : List T → Slice T
  slice_of [] = none
  slice_of (x ∷ xs) = some (x ∷ xs)

  abbrev pub first_or : T → List T → T
  first_or empty [] = empty
  first_or empty (x ∷ xs) = x

  append_lem : (s : List T) (x : T) → append (slice_of s) x ≡ slice_of (s ++ x ∷ [])
  append_lem [] x = refl
  append_lem (y ∷ s) x = refl

  filter_loop_lem :
      (fn : T → Bool) (s xs : List T) → filter_loop fn (slice_of s) xs ≡ slice_of (s ++ keep fn xs)
  unfolding filter_loop keep
  filter_loop_lem fn s [] = ap slice_of (sym (append-nil s))
  filter_loop_lem fn s (x ∷ xs) = elim (Bool-cases (fn x)) [
    | inl e ↦ rw e (
        ap (λ r. filter_loop fn r xs) (append_lem s x)
        ∙ filter_loop_lem fn (s ++ x ∷ []) xs
        ∙ ap slice_of (append_assoc s (x ∷ []) (keep fn xs)))
    | inr e ↦ rw e (filter_loop_lem fn s xs)
  ]

  find_loop_lem :
      (empty : T) (fn : T → Bool) (xs : List T)
      → find_loop empty fn xs ≡ first_or empty (keep fn xs)
  unfolding find_loop keep
  find_loop_lem empty fn [] = refl
  find_loop_lem empty fn (x ∷ xs) = ground (arith, find_loop_lem empty fn xs)

  remove_loop_lem :
      (fn : T → Bool) (r : Slice T) (xs : List T)
      → remove_loop fn r xs ≡ filter_loop (λ x. not (fn x)) r xs
  unfolding remove_loop filter_loop
  remove_loop_lem fn r [] = refl
  remove_loop_lem fn r (x ∷ xs) = remove_loop_lem fn (if not (fn x) then append r x else r) xs

  -- `filter` gives the elements that pass, in order, and a nil slice if none passes; `remove` gives
  -- those that do not pass, in the same way; `find` gives the first that passes.
  pub filter-keep :
      (empty : T) (items : Slice T) (fn : T → Bool)
      → (filter items fn ≡ slice_of (keep fn (elements items)))
        × (remove items fn ≡ slice_of (keep (λ x. not (fn x)) (elements items)))
        × (find empty items fn ≡ first_or empty (keep fn (elements items)))
  unfolding filter remove find keep
  filter-keep empty none fn = (refl, refl, refl)
  filter-keep empty (some xs) fn = (
    filter_loop_lem fn [] xs,
    remove_loop_lem fn none xs ∙ filter_loop_lem (λ x. not (fn x)) [] xs,
    find_loop_lem empty fn xs,
  )

module _ {T K : Type 0} (same : K → K → Bool)
    (same_iff : (h k : K) → (same h k ≡ true) ↔ (h ≡ k)) where
  -- The elements of a key.
  abbrev pub of_key : (T → K) → K → List T → List T
  of_key fn k = keep (λ x. same k (fn x))

  group_loop_lem :
      (fn : T → K) (grouped : K → Slice T) (xs : List T) (k : K) (s : List T)
      → grouped k ≡ slice_of s
      → group_loop same fn grouped xs k ≡ slice_of (s ++ of_key fn k xs)
  unfolding group_loop keep
  group_loop_lem fn grouped [] k s h = h ∙ ap slice_of (sym (append-nil s))
  group_loop_lem fn grouped (x ∷ xs) k s h = elim (Bool-cases (same k (fn x))) [
    | inl e ↦ rw e (
        group_loop_lem fn (add_to same grouped (fn x) x) xs k (s ++ x ∷ []) (
          rw e (
            ap (λ key. append (grouped key) x) (sym ((same_iff k (fn x)).0 e))
            ∙ ap (λ r. append r x) h
            ∙ append_lem s x))
        ∙ ap slice_of (append_assoc s (x ∷ []) (of_key fn k xs)))
    | inr e ↦ rw e (group_loop_lem fn (add_to same grouped (fn x) x) xs k s (rw e h))
  ]

  -- The group of a key is the elements of the key, in order; a key without elements is not in the
  -- map.
  pub group_by-keep :
      (items : Slice T) (fn : T → K) (k : K)
      → group_by same items fn k ≡ slice_of (of_key fn k (elements items))
  unfolding group_by keep
  group_by-keep none fn k = refl
  group_by-keep (some xs) fn k = group_loop_lem fn (λ k. none) xs k [] refl
