-- ===== src/Promises/Lists.antt =====
-- Rows of indices, reversed and cut.
use mathlib.Core.List.{reverse, reverse-cons}
use nodejs_template.Flow.Reference.{pop-concat}
use nodejs_template.Flow.{pop}
use nodejs_template.Prelude.{
  take, drop, ◌≡◌, ◌≢◌, ◌≤◌, ◌+◌, ◌++◌, ◌∙◌, ℕ, ap, refl, arith, List, [], ◌∷◌, some, length, zero,
  suc, length-append, true,
}
use nodejs_template.Promises.{count_up, contains}
use nodejs_template.Promises.Order.{count, count-append}

pub pop-count_up :
    (i n : ℕ) → pop (reverse (count_up i (suc n))) ≡ some (reverse (count_up (i + 1) n), i)
unfolding count_up
pop-count_up i n = rw reverse-cons (pop-concat (reverse (count_up (i + 1) n)) i)

pub count_up-snoc : (i n : ℕ) → count_up i (suc n) ≡ count_up i n ++ (i + n) ∷ []
unfolding count_up
count_up-snoc i zero = ap (λ j. j ∷ []) (omega arith)
count_up-snoc i (suc n) =
    ap (λ js. i ∷ js)
      (count_up-snoc (i + 1) n ∙ ap (λ j. count_up (i + 1) n ++ j ∷ []) (omega arith))

pub count-count_up :
    (a n : ℕ) → count a (count_up 0 (n + 1)) ≡ count a (count_up 0 n) + count a (n ∷ [])
count-count_up a n =
    ap (λ k. count a (count_up 0 k)) (omega arith)
    ∙ ap (count a) (count_up-snoc 0 n)
    ∙ count-append a (count_up 0 n) ((0 + n) ∷ [])
    ∙ ap (λ k. count a (count_up 0 n) + count a (k ∷ [])) (omega arith)

pub contains-nil : (i : ℕ) (xs : List ℕ) → contains i xs ≡ true → xs ≢ []
unfolding contains
contains-nil i [] h = cc
contains-nil i (x ∷ xs) h = λ e. cc

pub nil_of_length : {T : Type 0} (xs : List T) → length xs ≡ 0 → xs ≡ []
nil_of_length [] h = refl
nil_of_length (x ∷ xs) h = absurd (omega arith)

pub count_up-append : (i a b : ℕ) → count_up i (a + b) ≡ count_up i a ++ count_up (i + a) b
unfolding count_up
count_up-append i zero b =
    let p : zero + b ≡ b = omega arith in
    let q : i ≡ i + zero = omega arith in ap (count_up i) p ∙ ap (λ j. count_up j b) q
count_up-append i (suc a) b =
    let p : suc a + b ≡ suc (a + b) = omega arith in
    let q : i + 1 + a ≡ i + suc a = omega arith in
    ap (count_up i) p
    ∙ ap (λ js. i ∷ js)
        (count_up-append (i + 1) a b ∙ ap (λ j. count_up (i + 1) a ++ count_up j b) q)

pub none_up : reverse (count_up 0 0) ≡ []
unfolding count_up
none_up = refl

pub length-nil : length {A = ℕ} [] ≡ 0
length-nil = refl

pub length-reverse : (xs : List ℕ) → length (reverse xs) ≡ length xs
length-reverse [] = refl
length-reverse (x ∷ xs) =
    ap length (reverse-cons x xs)
    ∙ omega (arith, length-append (reverse xs) (x ∷ []), length-reverse xs)

pub count-reverse : (a : ℕ) (xs : List ℕ) → count a (reverse xs) ≡ count a xs
unfolding count
count-reverse a [] = refl
count-reverse a (x ∷ xs) =
    ap (count a) (reverse-cons x xs)
    ∙ omega (arith, count-append a (reverse xs) (x ∷ []), count-reverse a xs)

pub take-append_length : (n : ℕ) (xs ys : List ℕ) → n ≡ length xs → take n (xs ++ ys) ≡ xs
take-append_length zero [] ys e = refl
take-append_length zero (x ∷ xs) ys e = absurd (omega arith)
take-append_length (suc n) [] ys e = absurd (omega arith)
take-append_length (suc n) (x ∷ xs) ys e =
    ap (λ zs. x ∷ zs) (take-append_length n xs ys (omega arith))

pub drop-append_length : (n : ℕ) (xs ys : List ℕ) → n ≡ length xs → drop n (xs ++ ys) ≡ ys
drop-append_length zero [] ys e = refl
drop-append_length zero (x ∷ xs) ys e = absurd (omega arith)
drop-append_length (suc n) [] ys e = absurd (omega arith)
drop-append_length (suc n) (x ∷ xs) ys e = drop-append_length n xs ys (omega arith)

pub take_all : (n : ℕ) (xs : List ℕ) → length xs ≤ n → take n xs ≡ xs
take_all zero [] h = refl
take_all zero (x ∷ xs) h = absurd (omega arith)
take_all (suc n) [] h = refl
take_all (suc n) (x ∷ xs) h = ap (λ zs. x ∷ zs) (take_all n xs (omega arith))

pub drop_all : (n : ℕ) (xs : List ℕ) → length xs ≤ n → drop n xs ≡ []
drop_all zero [] h = refl
drop_all zero (x ∷ xs) h = absurd (omega arith)
drop_all (suc n) [] h = refl
drop_all (suc n) (x ∷ xs) h = drop_all n xs (omega arith)
