-- ===== src/Loader/Listed.antt =====
-- What a list of names lets start, read off the list itself.
use nodejs_template.Prelude.{
  Bool, true, false, not, ◌&&◌, ◌||◌, Option, none, some, List, [], ◌∷◌, ◌++◌, any, ◌==◌, ◌≡◌, refl,
  if◌then◌else◌, arith, Option-cases, inl, inr,
}
use nodejs_template.Text.{Text, text_eq, has}
use nodejs_template.Text.Equality.{text_eq_iff}
use nodejs_template.Loader.{
  LoaderOptions, no_options, all, none_at_all, add_name, add_item, extract_options, admits,
}

-- The last of `*` and `!*` in the list: whether it lets all start.
unfoldable pub last_wildcard : List Text → Option Bool
last_wildcard [] = none
last_wildcard (item ∷ rest) = elim (last_wildcard rest) [
  | some b ↦ some b
  | none ↦
      if text_eq item all then some true else if text_eq item none_at_all then some false else none
]

unfoldable pub starts_with_bang : Text → Bool
starts_with_bang [] = false
starts_with_bang (c ∷ s) = c == b'!'

unfoldable pub is_wildcard : Text → Bool
is_wildcard item = text_eq item all || text_eq item none_at_all

unfoldable pub is_denied : List Text → Text → Bool
unfolding is_wildcard
is_denied list name = not (is_wildcard (b'!' ∷ name)) && has list (b'!' ∷ name)

unfoldable pub is_allowed : List Text → Text → Bool
unfolding is_wildcard starts_with_bang
is_allowed list name = not (is_wildcard name || starts_with_bang name) && has list name

-- A denied name never starts; an allowed one starts; the others go by the last wildcard, and
-- without one by their own option.
unfoldable pub lets_start : List Text → Bool → Text → Bool
unfolding is_denied is_allowed last_wildcard
lets_start list enabled name =
    not (is_denied list name)
    && (is_allowed list name || elim (last_wildcard list) [ some b ↦ b | none ↦ enabled ])

any-append :
    {A : Type 0} (p : A → Bool) (xs ys : List A) → any p (xs ++ ys) ≡ (any p xs || any p ys)
any-append p [] ys = refl
any-append p (x ∷ xs) ys = ground (arith, any-append p xs ys)

-- What one item adds to the denied names.
add_item-deny :
    (s : LoaderOptions) (item name : Text)
    → has (add_item s item).deny name
      ≡ (has s.deny name || (not (is_wildcard (b'!' ∷ name)) && text_eq item (b'!' ∷ name)))
unfolding add_item add_name is_wildcard
add_item-deny s [] name = ground arith
add_item-deny s (c ∷ item) name =
    ground (arith, any-append (λ word. text_eq word name) s.deny (item ∷ []), text_eq_iff item name)

-- What one item adds to the allowed names.
add_item-allow :
    (s : LoaderOptions) (item name : Text)
    → has (add_item s item).allow name
      ≡ (has s.allow name || (not (is_wildcard name || starts_with_bang name) && text_eq item name))
unfolding add_item add_name is_wildcard starts_with_bang
add_item-allow s [] name = ground (
  arith,
  any-append (λ word. text_eq word name) s.allow ([] ∷ []),
  text_eq_iff [] name,
  text_eq_iff name all,
)
add_item-allow s (c ∷ item) [] =
    ground (arith, any-append (λ word. text_eq word []) s.allow ((c ∷ item) ∷ []))
add_item-allow s (c ∷ item) (d ∷ name) = ground (
  arith,
  any-append (λ word. text_eq word (d ∷ name)) s.allow ((c ∷ item) ∷ []),
  text_eq_iff item name,
)

extract_options-cons :
    (s : LoaderOptions) (item : Text) (rest : List Text)
    → extract_options s (item ∷ rest) ≡ extract_options (add_item s item) rest
unfolding extract_options
extract_options-cons s item rest = refl

-- The lists that are extracted, and the two flags.
deny-extract :
    (s : LoaderOptions) (list : List Text) (name : Text)
    → has (extract_options s list).deny name ≡ (has s.deny name || is_denied list name)
unfolding is_denied
deny-extract s [] name = unfold extract_options in ground arith
deny-extract s (item ∷ rest) name =
    rw
      (
        extract_options-cons s item rest,
        deny-extract (add_item s item) rest name,
        add_item-deny s item name,
      )
      (ground arith)

allow-extract :
    (s : LoaderOptions) (list : List Text) (name : Text)
    → has (extract_options s list).allow name ≡ (has s.allow name || is_allowed list name)
unfolding is_allowed
allow-extract s [] name = unfold extract_options in ground arith
allow-extract s (item ∷ rest) name =
    rw
      (
        extract_options-cons s item rest,
        allow-extract (add_item s item) rest name,
        add_item-allow s item name,
      )
      (ground arith)

add_item-wildcard :
    (s : LoaderOptions) (item : Text)
    → ((add_item s item).allow_all
        ≡ (text_eq item all || (not (text_eq item none_at_all) && s.allow_all)))
      × ((add_item s item).deny_all
          ≡ (not (text_eq item all) && (text_eq item none_at_all || s.deny_all)))
unfolding add_item add_name
add_item-wildcard s [] = ground arith
add_item-wildcard s (c ∷ item) = ground arith

wildcard-extract :
    (s : LoaderOptions) (list : List Text)
    → ((extract_options s list).allow_all
        ≡ elim (last_wildcard list) [ some b ↦ b | none ↦ s.allow_all ])
      × ((extract_options s list).deny_all
          ≡ elim (last_wildcard list) [ some b ↦ not b | none ↦ s.deny_all ])
unfolding last_wildcard
wildcard-extract s [] = unfold extract_options in (refl, refl)
wildcard-extract s (item ∷ rest) =
    let (all_rest, deny_rest) = wildcard-extract (add_item s item) rest in
    let (all_item, deny_item) = add_item-wildcard s item in
    (
      rw (extract_options-cons s item rest, all_rest) (ground arith),
      rw (extract_options-cons s item rest, deny_rest) (ground arith),
    )

-- What starts is what the list of names says: a denied name never, an allowed one always, and
-- any other by the last of `*` and `!*`, or by its own option where the list has neither.
pub extract_options-admits :
    (list : List Text) (enabled : Bool) (name : Text)
    → admits (extract_options no_options list) enabled name ≡ lets_start list enabled name
unfolding admits lets_start
extract_options-admits list enabled name =
    let deny = deny-extract no_options list name in
    let allow = allow-extract no_options list name in
    let (allows, denies) = wildcard-extract no_options list in
    elim (Option-cases (last_wildcard list)) [ inl e ↦ ground arith | inr (b, e) ↦ ground arith ]
