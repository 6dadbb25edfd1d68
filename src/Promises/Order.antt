-- ===== src/Promises/Order.antt =====
-- The outputs in the order of the callbacks: a sorted list is determined by how often each number
-- stands in it.
use nodejs_template.Prelude.{
  ℕ, zero, suc, ◌+◌, ◌≤◌, ◌<◌, ◌≡◌, refl, ap, sym, ◌∙◌, List, [], ◌∷◌, ◌++◌, map, length, leb, ◌==◌,
  All, arith, if◌then◌else◌, Bool-cases, true, inl, inr, leb→le,
}
use nodejs_template.Promises.{count_up, insert, sort, contains, remove}

unfoldable pub count : ℕ → List ℕ → ℕ
count a [] = 0
count a (x ∷ xs) = (if x == a then 1 else 0) + count a xs

abbrev pub IsSorted : List ℕ → Type 0
IsSorted [] = Unit
IsSorted (x ∷ xs) = All (λ y. x ≤ y) xs × IsSorted xs

pub count-append : (a : ℕ) (xs ys : List ℕ) → count a (xs ++ ys) ≡ count a xs + count a ys
unfolding count
count-append a [] ys = omega arith
count-append a (x ∷ xs) ys = omega (arith, count-append a xs ys)

-- What stands in a list with a lower bound is not below it.
bound_of_count : (a b : ℕ) (xs : List ℕ) → All (λ y. a ≤ y) xs → 0 < count b xs → a ≤ b
unfolding count
bound_of_count a b [] h c = absurd (omega arith)
bound_of_count a b (x ∷ xs) h c = ground (arith, bound_of_count a b xs h.1)

count_self : (a : ℕ) (xs : List ℕ) → count a (a ∷ xs) ≡ count a xs + 1
unfolding count
count_self a xs = ground arith

head-le :
    (x y : ℕ) (xs ys : List ℕ)
    → IsSorted (y ∷ ys)
    → ((a : ℕ) → count a (x ∷ xs) ≡ count a (y ∷ ys))
    → y ≤ x
head-le x y xs ys s h =
    bound_of_count y x (y ∷ ys) (omega arith, s.0) (omega (arith, h x, count_self x xs))

pub sorted_unique :
    (xs ys : List ℕ) → IsSorted xs → IsSorted ys → ((a : ℕ) → count a xs ≡ count a ys) → xs ≡ ys
sorted_unique [] [] s t h = refl
sorted_unique [] (y ∷ ys) s t h = absurd (unfold count in omega (arith, h y, count_self y ys))
sorted_unique (x ∷ xs) [] s t h = absurd (unfold count in omega (arith, h x, count_self x xs))
sorted_unique (x ∷ xs) (y ∷ ys) s t h =
    let e : x ≡ y = omega (arith, head-le x y xs ys t h, head-le y x ys xs s (λ a. sym (h a))) in
    let tails = sorted_unique xs ys s.1 t.1 (λ a. unfold count in ground (arith, h a, e)) in cc

All-le : (a b : ℕ) (xs : List ℕ) → a ≤ b → All (λ y. b ≤ y) xs → All (λ y. a ≤ y) xs
All-le a b [] h t = tt
All-le a b (x ∷ xs) h t = (omega (arith, t.0), All-le a b xs h t.1)

abbrev pub indices : {T : Type 0} → List (T × ℕ) → List ℕ
indices = map (λ output. output.1)

module _ {T : Type 0} where
  count-insert :
      (a i : ℕ) (r : T) (xs : List (T × ℕ))
      → count a (indices (insert (r, i) xs)) ≡ count a (i ∷ indices xs)
  unfolding insert count
  count-insert a i r [] = refl
  count-insert a i r ((s, j) ∷ xs) = ground (arith, count-insert a i r xs)

  pub count-sort : (a : ℕ) (xs : List (T × ℕ)) → count a (indices (sort xs)) ≡ count a (indices xs)
  unfolding sort count
  count-sort a [] = refl
  count-sort a ((r, i) ∷ xs) = omega (arith, count-insert a i r (sort xs), count-sort a xs)

  insert-above :
      (a i : ℕ) (r : T) (xs : List (T × ℕ))
      → a ≤ i
      → All (λ y. a ≤ y) (indices xs)
      → All (λ y. a ≤ y) (indices (insert (r, i) xs))
  unfolding insert
  insert-above a i r [] h t = (h, tt)
  insert-above a i r ((s, j) ∷ xs) h t = ground (arith, insert-above a i r xs h t.1)

  insert-IsSorted :
      (i : ℕ) (r : T) (xs : List (T × ℕ))
      → IsSorted (indices xs)
      → IsSorted (indices (insert (r, i) xs))
  unfolding insert
  insert-IsSorted i r [] h = (tt, tt)
  insert-IsSorted i r ((s, j) ∷ xs) h = elim (Bool-cases (leb i j)) [
    | inl e ↦ rw e ((leb→le i j e, All-le i j (indices xs) (leb→le i j e) h.0), h)
    | inr e ↦ rw e (insert-above j i r xs (ground arith) h.0, insert-IsSorted i r xs h.1)
  ]

  pub sort-IsSorted : (xs : List (T × ℕ)) → IsSorted (indices (sort xs))
  unfolding sort
  sort-IsSorted [] = tt
  sort-IsSorted ((r, i) ∷ xs) = insert-IsSorted i r (sort xs) (sort-IsSorted xs)

  -- Each output is what its callback ended with.
  abbrev pub Holds : (ℕ → T) → List (T × ℕ) → Type 0
  Holds result xs = All (λ output. output.0 ≡ result output.1) xs

  insert-Holds :
      (result : ℕ → T) (i : ℕ) (r : T) (xs : List (T × ℕ))
      → r ≡ result i
      → Holds result xs
      → Holds result (insert (r, i) xs)
  unfolding insert
  insert-Holds result i r [] h t = (h, tt)
  insert-Holds result i r ((s, j) ∷ xs) h t = elim (Bool-cases (leb i j)) [
    | inl e ↦ rw e (h, t)
    | inr e ↦ rw e (t.0, insert-Holds result i r xs h t.1)
  ]

  sort-Holds : (result : ℕ → T) (xs : List (T × ℕ)) → Holds result xs → Holds result (sort xs)
  unfolding sort
  sort-Holds result [] h = tt
  sort-Holds result ((r, i) ∷ xs) h =
      insert-Holds result i r (sort xs) h.0 (sort-Holds result xs h.1)

  values-Holds :
      (result : ℕ → T) (xs : List (T × ℕ))
      → Holds result xs
      → map (λ output. output.0) xs ≡ map result (indices xs)
  values-Holds result [] h = refl
  values-Holds result ((r, i) ∷ xs) h = ground (arith, h.0, values-Holds result xs h.1)

count_up-above : (a i n : ℕ) → a ≤ i → All (λ y. a ≤ y) (count_up i n)
unfolding count_up
count_up-above a i zero h = tt
count_up-above a i (suc n) h = (h, count_up-above a (i + 1) n (omega arith))

count_up-IsSorted : (i n : ℕ) → IsSorted (count_up i n)
unfolding count_up
count_up-IsSorted i zero = tt
count_up-IsSorted i (suc n) =
    (count_up-above i (i + 1) n (omega arith), count_up-IsSorted (i + 1) n)

pub length-count_up : (i n : ℕ) → length (count_up i n) ≡ n
unfolding count_up
length-count_up i zero = refl
length-count_up i (suc n) = ap suc (length-count_up (i + 1) n)

-- Outputs of the first `n` callbacks, in any order, are sorted into the list of their results.
pub sort-results :
    {T : Type 0} (result : ℕ → T) (n : ℕ) (xs : List (T × ℕ))
    → Holds result xs
    → ((a : ℕ) → count a (indices xs) ≡ count a (count_up 0 n))
    → map (λ output. output.0) (sort xs) ≡ map result (count_up 0 n)
sort-results result n xs h c =
    values-Holds result (sort xs) (sort-Holds result xs h)
    ∙ ap (map result) (
        sorted_unique (indices (sort xs)) (count_up 0 n) (sort-IsSorted xs) (count_up-IsSorted 0 n)
          (λ a. count-sort a xs ∙ c a))

pub count-remove :
    (a i : ℕ) (xs : List ℕ) → contains i xs ≡ true → count a (i ∷ remove i xs) ≡ count a xs
unfolding contains remove count
count-remove a i [] h = cc
count-remove a i (x ∷ xs) h = ground (arith, count-remove a i xs)

pub length-remove :
    (i : ℕ) (xs : List ℕ) → contains i xs ≡ true → length (remove i xs) + 1 ≡ length xs
unfolding contains remove
length-remove i [] h = cc
length-remove i (x ∷ xs) h = ground (arith, length-remove i xs)
