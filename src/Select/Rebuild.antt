-- ===== src/Select/Rebuild.antt =====
-- What the paths of an object build, key by key.
use nodejs_template.Prelude.{
  ◌≡◌, refl, ap, sym, ◌∙◌, false, Option, none, some, List, [], ◌∷◌, ◌++◌, map, arith, inl, inr,
  Option-cases,
}
use nodejs_template.Text.{Text, text_eq}
use nodejs_template.Text.Equality.{text_eq_iff}
use nodejs_template.Select.{
  Nested, leaf, object, Entries, no_entry, entry, entry_at, set_entry, descend, set_path,
}

-- A path as a list of keys, the first apart, with what it leads to.
abbrev pub KeyPath : Type 0 → Type 0
KeyPath A = Text × List Text × A

module _ {A : Type 0} where
  -- The entries of one object behind those of another.
  unfoldable pub join_entries : Entries A → Entries A → Entries A
  join_entries no_entry right = right
  join_entries (entry k v rest) right = entry k v (join_entries rest right)

  pub join_entries_assoc :
      (a b c : Entries A) → join_entries (join_entries a b) c ≡ join_entries a (join_entries b c)
  unfolding join_entries
  join_entries_assoc no_entry b c = refl
  join_entries_assoc (entry k v rest) b c = ap (entry k v) (join_entries_assoc rest b c)

  pub join_entries_nil : (a : Entries A) → join_entries a no_entry ≡ a
  unfolding join_entries
  join_entries_nil no_entry = refl
  join_entries_nil (entry k v rest) = ap (entry k v) (join_entries_nil rest)

  pub set_entry-new :
      (k : Text) (v : Nested A) (es : Entries A)
      → entry_at es k ≡ none
      → set_entry k v es ≡ join_entries es (entry k v no_entry)
  unfolding set_entry entry_at join_entries
  set_entry-new k v no_entry h = refl
  set_entry-new k v (entry k' w rest) h = ground (arith, h, set_entry-new k v rest)

  entry_at-set_entry :
      (k : Text) (v : Nested A) (es : Entries A) → entry_at (set_entry k v es) k ≡ some v
  unfolding set_entry entry_at
  entry_at-set_entry k v no_entry = ground (arith, (text_eq_iff k k).1 refl)
  entry_at-set_entry k v (entry k' w rest) = ground (arith, entry_at-set_entry k v rest)

  pub entry_at-set_other :
      (k other : Text) (v : Nested A) (es : Entries A)
      → text_eq k other ≡ false
      → entry_at (set_entry k v es) other ≡ entry_at es other
  unfolding set_entry entry_at
  entry_at-set_other k other v no_entry h = ground (arith, h)
  entry_at-set_other k other v (entry k' w rest) h =
      ground (arith, h, entry_at-set_other k other v rest h, (text_eq_iff k' k).0)

  set_entry-twice :
      (k : Text) (v w : Nested A) (es : Entries A)
      → set_entry k v (set_entry k w es) ≡ set_entry k v es
  unfolding set_entry
  set_entry-twice k v w no_entry = ground (arith, (text_eq_iff k k).1 refl)
  set_entry-twice k v w (entry k' old rest) = ground (arith, set_entry-twice k v w rest)

  unfoldable pub prepend : Text → KeyPath A → KeyPath A
  prepend k (key, keys, a) = (k, key ∷ keys, a)

  unfoldable pub entries_paths : Entries A → List (KeyPath A)
  unfolding prepend
  entries_paths no_entry = []
  entries_paths (entry k (leaf a) rest) = (k, [], a) ∷ entries_paths rest
  entries_paths (entry k (object es) rest) =
      map (prepend k) (entries_paths es) ++ entries_paths rest

  unfoldable pub build : List (KeyPath A) → Entries A → Option (Entries A)
  build [] es = some es
  build ((key, keys, a) ∷ paths) es = elim (set_path (key ∷ keys) a es) [
    | none ↦ none
    | some built ↦ build paths built
  ]

  -- An object with another value of a key.
  unfoldable pub placed : Text → Entries A → Option (Entries A) → Option (Entries A)
  placed k es none = none
  placed k es (some built) = some (set_entry k (object built) es)

  module _ (key : Text) (keys : List Text) (a : A) (paths : List (KeyPath A)) (es : Entries A) where
    pub build-failed : set_path (key ∷ keys) a es ≡ none → build ((key, keys, a) ∷ paths) es ≡ none
    unfolding build
    build-failed h = rw (build, h) refl

    pub build-built :
        (built : Entries A)
        → set_path (key ∷ keys) a es ≡ some built
        → build ((key, keys, a) ∷ paths) es ≡ build paths built
    unfolding build
    build-built built h = rw (build, h) refl

  pub build-append :
      (left right : List (KeyPath A)) (es built : Entries A)
      → build left es ≡ some built
      → build (left ++ right) es ≡ build right built
  build-append [] right es built h = unfold build in ground (arith, h)
  build-append ((key, keys, a) ∷ left) right es built h =
      elim (Option-cases (set_path (key ∷ keys) a es)) [
        | inl e ↦ ground (arith, h, build-failed key keys a left es e)
        | inr (first, e) ↦
            build-built key keys a (left ++ right) es first e
            ∙ build-append left right first built (sym (build-built key keys a left es first e) ∙ h)
      ]

  -- A path into an object that is there, and into one that is not.
  set_path-placed :
      (k key : Text) (keys : List Text) (a : A) (x es : Entries A)
      → set_path (k ∷ key ∷ keys) a (set_entry k (object x) es)
        ≡ placed k es (set_path (key ∷ keys) a x)
  unfolding set_path placed descend
  set_path-placed k key keys a x es =
      rw (set_path, entry_at-set_entry k (object x) es)
        (elim (Option-cases (set_path (key ∷ keys) a x)) [
          | inl e ↦ rw e refl
          | inr (built, e) ↦ rw e (ap some (set_entry-twice k (object built) (object x) es))
        ])

  set_path-new :
      (k key : Text) (keys : List Text) (a : A) (es : Entries A)
      → entry_at es k ≡ none
      → set_path (k ∷ key ∷ keys) a es ≡ placed k es (set_path (key ∷ keys) a no_entry)
  unfolding set_path placed descend
  set_path-new k key keys a es h =
      rw (set_path, h)
        (elim (Option-cases (set_path (key ∷ keys) a no_entry)) [
          | inl e ↦ rw e refl
          | inr (built, e) ↦ rw e refl
        ])

  build-prepend :
      (k : Text) (paths : List (KeyPath A)) (x es : Entries A)
      → build (map (prepend k) paths) (set_entry k (object x) es) ≡ placed k es (build paths x)
  unfolding prepend placed
  build-prepend k [] x es = unfold build in refl
  build-prepend k ((key, keys, a) ∷ paths) x es =
      let placing = set_path-placed k key keys a x es in
      let others = map (prepend k) paths in
      let there = set_entry k (object x) es in
      elim (Option-cases (set_path (key ∷ keys) a x)) [
        | inl e ↦
            build-failed k (key ∷ keys) a others there (placing ∙ ap (placed k es) e)
            ∙ sym (ap (placed k es) (build-failed key keys a paths x e))
        | inr (built, e) ↦
            build-built k (key ∷ keys) a others there (set_entry k (object built) es)
              (placing ∙ ap (placed k es) e)
            ∙ build-prepend k paths built es
            ∙ sym (ap (placed k es) (build-built key keys a paths x built e))
      ]

  pub build-prepend_new :
      (k : Text) (path : KeyPath A) (paths : List (KeyPath A)) (es : Entries A)
      → entry_at es k ≡ none
      → build (map (prepend k) (path ∷ paths)) es ≡ placed k es (build (path ∷ paths) no_entry)
  unfolding prepend placed
  build-prepend_new k (key, keys, a) paths es h =
      let placing = set_path-new k key keys a es h in
      let others = map (prepend k) paths in
      elim (Option-cases (set_path (key ∷ keys) a no_entry)) [
        | inl e ↦
            build-failed k (key ∷ keys) a others es (placing ∙ ap (placed k es) e)
            ∙ sym (ap (placed k es) (build-failed key keys a paths no_entry e))
        | inr (built, e) ↦
            build-built k (key ∷ keys) a others es (set_entry k (object built) es)
              (placing ∙ ap (placed k es) e)
            ∙ build-prepend k paths built es
            ∙ sym (ap (placed k es) (build-built key keys a paths no_entry built e))
      ]
