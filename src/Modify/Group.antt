-- ===== src/Modify/Group.antt =====
-- A group holds the values of its key, in their order.
use nodejs_template.Prelude.{
  sym, ◌≡◌, refl, Bool, true, false, ◌||◌, Option, none, some, Bool-cases, inl, inr, ◌+◌, ℕ, List,
  [], ◌∷◌, ◌++◌, length, length-append, append-nil, append_assoc, arith, if◌then◌else◌,
}
use nodejs_template.Text.{Text, text_eq}
use nodejs_template.Text.Equality.{text_eq_iff}
use nodejs_template.Modify.{push_own, push_group, group_onto, group_by, has_key, inherited_keys}

module _ {A : Type 0} where
  pub group_at : Text → List (Text × List A) → List A
  group_at key [] = []
  group_at key ((k, group) ∷ groups) =
      let others = group_at key groups in if text_eq k key then group else others

  pub select : (A → Text) → Text → List A → List A
  select callback key [] = []
  select callback key (value ∷ values) =
      let rest = select callback key values in
      if text_eq (callback value) key then value ∷ rest else rest

  pub total : List (Text × List A) → ℕ
  total [] = 0
  total ((k, group) ∷ groups) = length group + total groups

  pub any_inherited : (A → Text) → List A → Bool
  any_inherited callback [] = false
  any_inherited callback (value ∷ values) =
      has_key inherited_keys (callback value) || any_inherited callback values

  group_at-push_own :
      (key k : Text) (value : A) (groups : List (Text × List A))
      → group_at key (push_own k value groups)
        ≡ (if text_eq k key then group_at key groups ++ value ∷ [] else group_at key groups)
  unfolding group_at push_own
  group_at-push_own key k value [] = ground arith
  group_at-push_own key k value ((j, group) ∷ groups) = ground (
    arith,
    text_eq_iff j k,
    text_eq_iff k key,
    text_eq_iff j key,
    group_at-push_own key k value groups,
  )

  total-push_own :
      (k : Text) (value : A) (groups : List (Text × List A))
      → total (push_own k value groups) ≡ total groups + 1
  unfolding total push_own
  total-push_own k value [] = omega arith
  total-push_own k value ((j, group) ∷ groups) =
      ground (arith, total-push_own k value groups, length-append group (value ∷ []))

  -- What becomes of the groups so far.
  abbrev pub Grouped :
      (A → Text) → List A → List (Text × List A) → Option (List (Text × List A)) → Type 0
  Grouped callback values groups none = any_inherited callback values ≡ true
  Grouped callback values groups (some grouped) =
      (any_inherited callback values ≡ false)
      × ((key : Text) → group_at key grouped ≡ group_at key groups ++ select callback key values)
      × (total grouped ≡ total groups + length values)

  module _ (callback : A → Text) (value : A) (values : List A) (groups : List (Text × List A)) where
    group_onto-inherited :
        has_key inherited_keys (callback value) ≡ true
        → group_onto callback (value ∷ values) groups ≡ none
    unfolding group_onto
    group_onto-inherited h = rw (push_group, h) refl

    group_onto-own :
        has_key inherited_keys (callback value) ≡ false
        → group_onto callback (value ∷ values) groups
          ≡ group_onto callback values (push_own (callback value) value groups)
    unfolding group_onto
    group_onto-own h = rw (push_group, h) refl

    Grouped-cons :
        (result : Option (List (Text × List A)))
        → has_key inherited_keys (callback value) ≡ false
        → Grouped callback values (push_own (callback value) value groups) result
        → Grouped callback (value ∷ values) groups result
    unfolding any_inherited select
    Grouped-cons none e h = ground (arith, h)
    Grouped-cons (some grouped) e (own, selected, size) = (
      ground (arith, e, own),
      (λ key. ground (
        arith,
        selected key,
        group_at-push_own key (callback value) value groups,
        append_assoc (group_at key groups) (value ∷ []) (select callback key values),
      )),
      omega (arith, size, total-push_own (callback value) value groups),
    )

  group_onto-Grouped :
      (callback : A → Text) (values : List A) (groups : List (Text × List A))
      → Grouped callback values groups (group_onto callback values groups)
  unfolding select any_inherited
  group_onto-Grouped callback [] groups =
      unfold group_onto in (refl, (λ key. sym (append-nil (group_at key groups))), omega arith)
  group_onto-Grouped callback (value ∷ values) groups =
      let pushed = push_own (callback value) value groups in
      elim (Bool-cases (has_key inherited_keys (callback value))) [
        | inl e ↦ rw (group_onto-inherited callback value values groups e) (ground (arith, e))
        | inr e ↦ rw (group_onto-own callback value values groups e) (
            Grouped-cons callback value values groups (group_onto callback values pushed) e
              (group_onto-Grouped callback values pushed))
      ]

  -- A key that `{}` inherits, such as `constructor`, makes the call throw; without one, at each key
  -- stand the values of the array whose key it is, in their order, and all groups together hold as
  -- many values as the array.
  pub group_by-Grouped :
      (array : List A) (callback : A → Text) → Grouped callback array [] (group_by array callback)
  unfolding group_by
  group_by-Grouped array callback = group_onto-Grouped callback array []
