-- ===== src/Paths/Lookup.antt =====
-- Lookups in objects, and objects whose keys are distinct.
use nodejs_template.Prelude.{
  inl, inr, Bool-cases, ◌≡◌, refl, Bool, true, false, arith, if◌then◌else◌,
}
use nodejs_template.Text.{Text, text_eq}
use nodejs_template.Text.Equality.{text_eq_iff}
use nodejs_template.Value.{Value, undefined, Fields, end, field}
use nodejs_template.Keys.{set_field}
use nodejs_template.Paths.{field_at}

abbrev pub Lacks : Text → Fields → Type 0
Lacks key end = Unit
Lacks key (field k v rest) = (text_eq k key ≡ false) × Lacks key rest

abbrev pub IsDistinct : Fields → Type 0
IsDistinct end = Unit
IsDistinct (field k v rest) = Lacks k rest × IsDistinct rest

-- `key in object`
unfoldable pub has_field : Fields → Text → Bool
has_field end key = false
has_field (field k v rest) key =
    let others = has_field rest key in if text_eq k key then true else others

pub field_at-set_field :
    (fields : Fields) (k key : Text) (value : Value)
    → field_at (set_field k value fields) key
      ≡ (if text_eq k key then value else field_at fields key)
unfolding field_at set_field
field_at-set_field end k key value = ground (arith, text_eq_iff k key)
field_at-set_field (field j v rest) k key value = ground (
  arith,
  text_eq_iff j k,
  text_eq_iff k key,
  text_eq_iff j key,
  field_at-set_field rest k key value,
)

pub has_field-set_field :
    (fields : Fields) (k key : Text) (value : Value)
    → has_field (set_field k value fields) key
      ≡ (if text_eq k key then true else has_field fields key)
unfolding has_field set_field
has_field-set_field end k key value = ground (arith, text_eq_iff k key)
has_field-set_field (field j v rest) k key value = ground (
  arith,
  text_eq_iff j k,
  text_eq_iff k key,
  text_eq_iff j key,
  has_field-set_field rest k key value,
)

pub has_field-Lacks :
    (key : Text) (fields : Fields) → Lacks key fields → has_field fields key ≡ false
unfolding has_field
has_field-Lacks key end h = refl
has_field-Lacks key (field k v rest) h = ground (arith, h.0, has_field-Lacks key rest h.1)

-- A key that is not there reads as undefined.
pub field_at-has_field :
    (fields : Fields) (key : Text) → has_field fields key ≡ false → field_at fields key ≡ undefined
unfolding has_field field_at
field_at-has_field end key h = refl
field_at-has_field (field k v rest) key h = ground (arith, field_at-has_field rest key)

Lacks-set_field :
    (fields : Fields) (j k : Text) (value : Value)
    → text_eq k j ≡ false
    → Lacks j fields
    → Lacks j (set_field k value fields)
unfolding set_field
Lacks-set_field end j k value n h = (n, tt)
Lacks-set_field (field i v rest) j k value n h =
    ground (arith, Lacks-set_field rest j k value n h.1)

pub IsDistinct-set_field :
    (fields : Fields) (k : Text) (value : Value)
    → IsDistinct fields
    → IsDistinct (set_field k value fields)
unfolding set_field
IsDistinct-set_field end k value h = (tt, tt)
IsDistinct-set_field (field i v rest) k value h = elim (Bool-cases (text_eq i k)) [
  | inl e ↦ rw e h
  | inr e ↦ rw e (
    Lacks-set_field rest i k value (ground (arith, e, text_eq_iff i k, text_eq_iff k i)) h.0,
    IsDistinct-set_field rest k value h.1,
  )
]
