-- ===== src/Select/Rows.antt =====
-- The rows of a formatted select.
use nodejs_template.Prelude.{
  ◌≡◌, ◌≢◌, refl, ap, sym, ◌∙◌, false, Option, none, some, List, [], ◌∷◌, ◌++◌, map, All,
  All-append, arith, append_assoc, inl, inr, Option-cases,
}
use nodejs_template.Text.{Text, text_eq}
use nodejs_template.Text.Equality.{text_eq_iff}
use nodejs_template.Select.{
  Nested, leaf, object, Entries, no_entry, entry, get_path, get_values_path, entry_at, set_entry,
  set_path, parse_entry, parse_entries, parse_value,
}
use nodejs_template.Select.Paths.{
  IsKey, joined, alias, path_of-alias, split_path-joined, includes-joined, includes-key,
}
use nodejs_template.Select.Rebuild.{
  KeyPath, join_entries, join_entries_assoc, join_entries_nil, set_entry-new, entry_at-set_other,
  prepend, entries_paths, build, placed, build-built, build-failed, build-append, build-prepend_new,
}

-- Objects of objects and leaves: keys that are not empty, have no dot and stand once, and no empty
-- object inside.
unfoldable pub IsSchema : {A : Type 0} → Entries A → Type 0
IsSchema no_entry = Unit {0}
IsSchema (entry k (leaf a) rest) = IsKey k × (entry_at rest k ≡ none) × IsSchema rest
IsSchema (entry k (object es) rest) =
    IsKey k × (entry_at rest k ≡ none) × (es ≢ no_entry) × IsSchema es × IsSchema rest

-- None of the keys is there.
Fresh : {A : Type 0} → Entries A → Entries A → Type 0
Fresh es no_entry = Unit {0}
Fresh es (entry k v rest) = (entry_at es k ≡ none) × Fresh es rest

module _ {A : Type 0} where
  Fresh-none : (es : Entries A) → Fresh no_entry es
  unfolding Fresh entry_at
  Fresh-none no_entry = tt
  Fresh-none (entry k v rest) = (refl, Fresh-none rest)

  entry_at-tail :
      (k key : Text) (v : Nested A) (rest : Entries A)
      → entry_at (entry k v rest) key ≡ none
      → (text_eq k key ≡ false) × (entry_at rest key ≡ none)
  unfolding entry_at
  entry_at-tail k key v rest h = ground (arith, h)

  Fresh-set_entry :
      (k : Text) (v : Nested A) (es rest : Entries A)
      → entry_at rest k ≡ none
      → Fresh es rest
      → Fresh (set_entry k v es) rest
  unfolding Fresh
  Fresh-set_entry k v es no_entry h f = tt
  Fresh-set_entry k v es (entry k' w rest) h f =
      let (other, missing) = entry_at-tail k' k w rest h in
      let apart : text_eq k k' ≡ false =
        ground (arith, other, (text_eq_iff k k').0, (text_eq_iff k' k).1) in
      (entry_at-set_other k k' v es apart ∙ f.0, Fresh-set_entry k v es rest missing f.1)

  join-set_entry :
      (k : Text) (v : Nested A) (es rest : Entries A)
      → entry_at es k ≡ none
      → join_entries (set_entry k v es) rest ≡ join_entries es (entry k v rest)
  unfolding join_entries
  join-set_entry k v es rest h =
      ap (λ e. join_entries e rest) (set_entry-new k v es h)
      ∙ join_entries_assoc es (entry k v no_entry) rest

  entries_paths-some :
      (es : Entries A)
      → es ≢ no_entry
      → IsSchema es
      → (path : KeyPath A) × (paths : List (KeyPath A)) × (entries_paths es ≡ path ∷ paths)
  unfolding entries_paths IsSchema
  entries_paths-some no_entry some_entry h = elim (some_entry refl) [ ]
  entries_paths-some (entry k (leaf a) rest) some_entry h = ((k, [], a), entries_paths rest, refl)
  entries_paths-some (entry k (object es) rest) some_entry (key, once, filled, inside, behind) =
      let (path, paths, e) = entries_paths-some es filled inside in
      (prepend k path, map (prepend k) paths ++ entries_paths rest, rw e refl)

  -- The paths of an object build it, behind what is there.
  build-entries_paths :
      (es built : Entries A)
      → IsSchema es
      → Fresh built es
      → build (entries_paths es) built ≡ some (join_entries built es)
  unfolding entries_paths IsSchema Fresh placed
  build-entries_paths no_entry built h f = unfold build in ap some (sym (join_entries_nil built))
  build-entries_paths (entry k (leaf a) rest) built (key, once, behind) f =
      let set = set_entry k (leaf a) built in
      build-built k [] a (entries_paths rest) built set (unfold set_path in refl)
      ∙ build-entries_paths rest set behind (Fresh-set_entry k (leaf a) built rest once f.1)
      ∙ ap some (join-set_entry k (leaf a) built rest f.0)
  build-entries_paths (entry k (object es) rest) built (key, once, filled, inside, behind) f =
      let set = set_entry k (object es) built in
      let (path, paths, e) = entries_paths-some es filled inside in
      let whole : build (entries_paths es) no_entry ≡ some es =
        build-entries_paths es no_entry inside (Fresh-none es) ∙ (unfold join_entries in refl) in
      let first : build (map (prepend k) (entries_paths es)) built ≡ some set =
        ap (λ p. build (map (prepend k) p) built) e
        ∙ build-prepend_new k path paths built f.0
        ∙ ap (λ p. placed k built (build p no_entry)) (sym e)
        ∙ ap (placed k built) whole in
      build-append (map (prepend k) (entries_paths es)) (entries_paths rest) built set first
      ∙ build-entries_paths rest set behind (Fresh-set_entry k (object es) built rest once f.1)
      ∙ ap some (join-set_entry k (object es) built rest f.0)

  -- The column of a path, with the keys before it.
  string_path : List Text → KeyPath A → Text × A
  string_path before (key, keys, a) = (alias (before ++ key ∷ keys), a)

  string_path-prepend :
      (before : List Text) (key : Text) (paths : List (KeyPath A))
      → map (string_path (before ++ key ∷ [])) paths
        ≡ map (string_path before) (map (prepend key) paths)
  unfolding string_path prepend
  string_path-prepend before key [] = refl
  string_path-prepend before key ((first, keys, a) ∷ paths) =
      ap (λ keys. (alias keys, a) ∷ map (string_path (before ++ key ∷ [])) paths)
        (append_assoc before (key ∷ []) (first ∷ keys))
      ∙ ap (λ rest. (alias (before ++ key ∷ first ∷ keys), a) ∷ rest)
          (string_path-prepend before key paths)

  map-append :
      (before : List Text) (left right : List (KeyPath A))
      → map (string_path before) left ++ map (string_path before) right
        ≡ map (string_path before) (left ++ right)
  map-append before [] right = refl
  map-append before (path ∷ left) right =
      ap (λ rest. string_path before path ∷ rest) (map-append before left right)

  get_path-string_path :
      (es : Entries A) (before : List Text)
      → All IsKey before
      → IsSchema es
      → get_path es (alias before) ≡ map (string_path before) (entries_paths es)
  unfolding get_path entries_paths IsSchema string_path
  get_path-string_path no_entry before b h = refl
  get_path-string_path (entry k (leaf a) rest) before b (key, once, behind) =
      ap (λ path. (path, a) ∷ get_path rest (alias before)) (path_of-alias before k b)
      ∙ ap (λ others. (alias (before ++ k ∷ []), a) ∷ others)
          (get_path-string_path rest before b behind)
  get_path-string_path (entry k (object es) rest) before b (key, once, filled, inside, behind) =
      ap (λ path. get_path es path ++ get_path rest (alias before)) (path_of-alias before k b)
      ∙ ap (λ first. first ++ get_path rest (alias before))
          (get_path-string_path es (before ++ k ∷ []) (All-append IsKey before (k ∷ []) b (key, tt))
              inside
            ∙ string_path-prepend before k (entries_paths es))
      ∙ ap (λ others. map (string_path before) (map (prepend k) (entries_paths es)) ++ others)
          (get_path-string_path rest before b behind)
      ∙ map-append before (map (prepend k) (entries_paths es)) (entries_paths rest)

  abbrev HasKeys : KeyPath A → Type 0
  HasKeys (key, keys, a) = All IsKey (key ∷ keys)

  All-prepend :
      (key : Text) (paths : List (KeyPath A))
      → IsKey key
      → All HasKeys paths
      → All HasKeys (map (prepend key) paths)
  unfolding prepend
  All-prepend key [] k h = tt
  All-prepend key ((first, keys, a) ∷ paths) k h = ((k, h.0), All-prepend key paths k h.1)

  entries_paths-HasKeys : (es : Entries A) → IsSchema es → All HasKeys (entries_paths es)
  unfolding entries_paths IsSchema
  entries_paths-HasKeys no_entry h = tt
  entries_paths-HasKeys (entry k (leaf a) rest) (key, once, behind) =
      ((key, tt), entries_paths-HasKeys rest behind)
  entries_paths-HasKeys (entry k (object es) rest) (key, once, filled, inside, behind) =
      All-append HasKeys (map (prepend k) (entries_paths es)) (entries_paths rest)
        (All-prepend k (entries_paths es) key (entries_paths-HasKeys es inside))
        (entries_paths-HasKeys rest behind)

  parse_entry-joined :
      (key : Text) (keys : List Text) (a : A) (es : Entries A)
      → All IsKey (key ∷ keys)
      → parse_entry (joined key keys) a es ≡ set_path (key ∷ keys) a es
  unfolding parse_entry
  parse_entry-joined key [] a es h =
      unfold joined in unfold set_path in rw (parse_entry, includes-key key h.0) refl
  parse_entry-joined key (next ∷ keys) a es h =
      rw (parse_entry, includes-joined key next keys, split_path-joined key (next ∷ keys) h) refl

  then_parse : List (Text × A) → Option (Entries A) → Option (Entries A)
  then_parse row none = none
  then_parse row (some built) = parse_entries row built

  parse_entries-cons :
      (key : Text) (a : A) (row : List (Text × A)) (es : Entries A)
      → parse_entries ((key, a) ∷ row) es ≡ then_parse row (parse_entry key a es)
  unfolding parse_entries then_parse
  parse_entries-cons key a row es = elim (Option-cases (parse_entry key a es)) [
    | inl e ↦ rw (parse_entries, e) refl
    | inr (built, e) ↦ rw (parse_entries, e) refl
  ]

  parse_entries-string_path :
      (paths : List (KeyPath A)) (es : Entries A)
      → All HasKeys paths
      → parse_entries (map (string_path []) paths) es ≡ build paths es
  unfolding string_path then_parse
  parse_entries-string_path [] es h = unfold parse_entries in unfold build in refl
  parse_entries-string_path ((key, keys, a) ∷ paths) es h =
      let row = map (string_path []) paths in
      let start =
        parse_entries-cons (joined key keys) a row es
        ∙ ap (then_parse row) (parse_entry-joined key keys a es h.0) in
      elim (Option-cases (set_path (key ∷ keys) a es)) [
        | inl e ↦ start ∙ ap (then_parse row) e ∙ sym (build-failed key keys a paths es e)
        | inr (built, e) ↦
            start
            ∙ ap (then_parse row) e
            ∙ parse_entries-string_path paths built h.1
            ∙ sym (build-built key keys a paths es built e)
      ]

  -- The object is made again from the row of its paths.
  pub parse_value-get_values_path :
      (es : Entries A) → IsSchema es → parse_value (get_values_path es) ≡ some es
  unfolding parse_value get_values_path
  parse_value-get_values_path es h =
      ap (λ row. parse_entries row no_entry) (get_path-string_path es [] tt h)
      ∙ parse_entries-string_path (entries_paths es) no_entry (entries_paths-HasKeys es h)
      ∙ build-entries_paths es no_entry h (Fresh-none es)
      ∙ (unfold join_entries in refl)
