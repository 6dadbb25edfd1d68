-- ===== src/Text/Equality.antt =====
-- The Boolean comparisons of texts against equality.
use nodejs_template.Prelude.{
  ◌≡◌, refl, ◌↔◌, true, some, List, [], ◌∷◌, ◌++◌, map_get, map_set, if◌then◌else◌, arith,
}
use nodejs_template.Text.{Text, text_eq, starts_with}

pub text_eq_iff : (s t : Text) → (text_eq s t ≡ true) ↔ (s ≡ t)
text_eq_iff [] [] = ground arith
text_eq_iff [] (b ∷ t) = ground arith
text_eq_iff (a ∷ s) [] = ground arith
text_eq_iff (a ∷ s) (b ∷ t) = ground (arith, text_eq_iff s t)

pub text_eq_refl : (s : Text) → text_eq s s ≡ true
text_eq_refl s = (text_eq_iff s s).1 refl

pub starts_with-append : (p s : Text) → starts_with p (p ++ s) ≡ true
starts_with-append [] s = refl
starts_with-append (c ∷ p) s = ground (arith, starts_with-append p s)

pub starts_with-split : (p s : Text) → starts_with p s ≡ true → (rest : Text) × (s ≡ p ++ rest)
starts_with-split [] s h = (s, refl)
starts_with-split (c ∷ p) [] h = cc
starts_with-split (c ∷ p) (d ∷ s) h =
    let (rest, e) = starts_with-split p s (ground arith) in (rest, ground arith)

-- `set` and `get` of a map whose keys are texts.
pub map_get-map_set :
    {V : Type 0} (m : List (Text × V)) (k j : Text) (v : V)
    → map_get text_eq (map_set text_eq m k v) j
      ≡ (if text_eq k j then some v else map_get text_eq m j)
map_get-map_set [] k j v = refl
map_get-map_set ((i, w) ∷ m) k j v =
    ground (arith, text_eq_iff i k, text_eq_iff k j, text_eq_iff i j, map_get-map_set m k j v)
