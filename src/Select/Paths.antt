-- ===== src/Select/Paths.antt =====
-- The alias of a column, and the path that is read from it.
use nodejs_template.Prelude.{
  ℕ, ◌≡◌, ◌≢◌, refl, ap, sym, ◌∙◌, true, false, List, [], ◌∷◌, ◌++◌, All, arith, append_assoc,
}
use nodejs_template.Text.{Text, starts_with, includes}
use nodejs_template.Select.{delimiter, split_path, path_of}

-- A key that is not empty and has no dot.
abbrev pub IsKey : Text → Type 0
IsKey [] = ⊥
IsKey (c ∷ s) = All (λ d. d ≢ b'.') (c ∷ s)

abbrev pub IsDotless : Text → Type 0
IsDotless s = All (λ d. d ≢ b'.') s

-- The alias of a path.
unfoldable pub joined : Text → List Text → Text
joined key [] = key
joined key (next ∷ keys) = key ++ (delimiter ++ joined next keys)

split_path-delimiter : (s : Text) → split_path 0 (delimiter ++ s) ≡ [] ∷ split_path 0 s
unfolding split_path
split_path-delimiter s = refl

starts_with-dotless : (c : ℕ) (s : Text) → c ≢ b'.' → starts_with delimiter (c ∷ s) ≡ false
starts_with-dotless c s h = ground (arith, h)

split_path-dotless : (key : Text) → IsDotless key → split_path 0 key ≡ key ∷ []
unfolding split_path
split_path-dotless [] h = refl
split_path-dotless (c ∷ s) h = rw (starts_with-dotless c s h.0) (rw (split_path-dotless s h.1) refl)

split_path-join :
    (key s : Text) → IsDotless key → split_path 0 (key ++ (delimiter ++ s)) ≡ key ∷ split_path 0 s
unfolding split_path
split_path-join [] s h = refl
split_path-join (c ∷ key) s h =
    rw (starts_with-dotless c (key ++ (delimiter ++ s)) h.0) (rw (split_path-join key s h.1) refl)

includes-dotless : (key : Text) → IsDotless key → includes delimiter key ≡ false
includes-dotless [] h = refl
includes-dotless (c ∷ s) h = rw (starts_with-dotless c s h.0) (includes-dotless s h.1)

includes-join : (key s : Text) → includes delimiter (key ++ (delimiter ++ s)) ≡ true
includes-join [] s = refl
includes-join (c ∷ key) s = ground (arith, includes-join key s)

IsKey-IsDotless : (key : Text) → IsKey key → IsDotless key
IsKey-IsDotless [] h = elim h [ ]
IsKey-IsDotless (c ∷ s) h = h

pub split_path-joined :
    (key : Text) (keys : List Text)
    → All IsKey (key ∷ keys)
    → split_path 0 (joined key keys) ≡ key ∷ keys
unfolding joined
split_path-joined key [] h = split_path-dotless key (IsKey-IsDotless key h.0)
split_path-joined key (next ∷ keys) h =
    split_path-join key (joined next keys) (IsKey-IsDotless key h.0)
    ∙ ap (λ rest. key ∷ rest) (split_path-joined next keys h.1)

pub includes-joined :
    (key next : Text) (keys : List Text) → includes delimiter (joined key (next ∷ keys)) ≡ true
unfolding joined
includes-joined key next keys = includes-join key (joined next keys)

pub includes-key : (key : Text) → IsKey key → includes delimiter key ≡ false
includes-key key h = includes-dotless key (IsKey-IsDotless key h)

joined-snoc :
    (key : Text) (keys : List Text) (last : Text)
    → joined key keys ++ (delimiter ++ last) ≡ joined key (keys ++ last ∷ [])
unfolding joined
joined-snoc key [] last = refl
joined-snoc key (next ∷ keys) last =
    append_assoc key (delimiter ++ joined next keys) (delimiter ++ last)
    ∙ ap (λ rest. key ++ rest)
        (append_assoc delimiter (joined next keys) (delimiter ++ last)
          ∙ ap (λ rest. delimiter ++ rest) (joined-snoc next keys last))

-- The alias of the keys before a key.
abbrev pub alias : List Text → Text
alias [] = []
alias (key ∷ keys) = joined key keys

path_of-some : (c : ℕ) (s key : Text) → path_of (c ∷ s) key ≡ (c ∷ s) ++ (delimiter ++ key)
unfolding path_of
path_of-some c s key = refl

joined-some :
    (key : Text) (keys : List Text) → IsKey key → (c : ℕ) × (s : Text) × (joined key keys ≡ c ∷ s)
unfolding joined
joined-some [] keys h = elim h [ ]
joined-some (c ∷ s) [] h = (c, s, refl)
joined-some (c ∷ s) (next ∷ keys) h = (c, s ++ (delimiter ++ joined next keys), refl)

pub path_of-alias :
    (keys : List Text) (key : Text)
    → All IsKey keys
    → path_of (alias keys) key ≡ alias (keys ++ key ∷ [])
path_of-alias [] key h = unfold path_of in unfold joined in refl
path_of-alias (first ∷ keys) key h =
    let (c, s, e) = joined-some first keys h.0 in
    ap (λ path. path_of path key) e
    ∙ path_of-some c s key
    ∙ ap (λ path. path ++ (delimiter ++ key)) (sym e)
    ∙ joined-snoc first keys key
