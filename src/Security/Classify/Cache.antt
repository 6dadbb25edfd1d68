-- ===== src/Security/Classify/Cache.antt =====
-- The cache does not show: what it answers is what is computed, and it stays within its size.
use nodejs_template.Prelude.{
  ◌≤◌, ◌≡◌, refl, Option, some, [], ◌∷◌, length, length-append, arith, Bool-cases, Option-cases,
  inl, inr, All, All-append, ltb, ltb→lt,
}
use nodejs_template.Text.{Text}
use nodejs_template.Text.Equality.{text_eq_iff}
use nodejs_template.Security.Classify.{
  KeyType, key_type, Cache, key_type_cache_max_size, lookup, classify_key,
}

-- Every entry holds the type of its key.
abbrev pub IsRight : Cache → Type 0
IsRight cache = All (λ entry. entry.1 ≡ key_type entry.0) cache

lookup-IsRight :
    (key : Text) (cache : Cache) (cached : Option KeyType)
    → IsRight cache
    → lookup key cache ≡ some cached
    → cached ≡ key_type key
unfolding lookup
lookup-IsRight key [] cached h e = cc
lookup-IsRight key ((k, found) ∷ cache) cached (here, later) e =
    ground (arith, text_eq_iff k key, lookup-IsRight key cache cached later)

pub record Classified (key : Text) (r : Option KeyType × Cache) : Type 0 where
  pub answer : r.0 ≡ key_type key
  pub right : IsRight r.1
  pub bounded : length r.1 ≤ key_type_cache_max_size

-- A cache whose entries are right and that is within its size is left so by `classify_key`, which
-- answers as if there were no cache.
pub classify_key-Classified :
    (key : Text) (cache : Cache)
    → IsRight cache
    → length cache ≤ key_type_cache_max_size
    → Classified key (classify_key key cache)
unfolding classify_key
classify_key-Classified key cache h size = elim (Option-cases (lookup key cache)) [
  | inl missing ↦ elim (Bool-cases (ltb (length cache) key_type_cache_max_size)) [
    | inl room ↦
        rw (missing, classify_key, room)
          (record {
            answer = refl;
            right = All-append _ cache ((key, key_type key) ∷ []) h (refl, tt);
            bounded = omega (
              arith,
              length-append cache ((key, key_type key) ∷ []),
              ltb→lt (length cache) key_type_cache_max_size room,
            );
          })
    | inr full ↦
        rw (missing, classify_key, full) (record { answer = refl; right = h; bounded = size })
  ]
  | inr (cached, hit) ↦
      rw (hit, classify_key)
        (record { answer = lookup-IsRight key cache cached h hit; right = h; bounded = size })
]
