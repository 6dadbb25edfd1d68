-- ===== src/Helm/Lines.antt =====
-- What a line of an environment file is read as.
use nodejs_template.Prelude.{ℕ, ◌≡◌, ◌≢◌, refl, true, false, some, [], ◌∷◌, ◌++◌, All, arith}
use nodejs_template.Text.{Text}
use nodejs_template.Keys.Parts.{parts-append}
use nodejs_template.Helm.{is_space, trim_start, trim_end, has_unit, line_entry}

-- A text without white space.
abbrev pub IsSolid : Text → Type 0
IsSolid s = All (λ c. is_space c ≡ false) s

trim_start-IsSolid : (s : Text) → IsSolid s → trim_start s ≡ s
unfolding trim_start
trim_start-IsSolid [] h = refl
trim_start-IsSolid (c ∷ s) h = ground (arith, h.0)

trim_end-IsSolid : (s : Text) → IsSolid s → trim_end s ≡ s
unfolding trim_end
trim_end-IsSolid [] h = refl
trim_end-IsSolid (c ∷ []) h = ground (arith, h.0)
trim_end-IsSolid (c ∷ d ∷ s) h = ground (arith, trim_end-IsSolid (d ∷ s) h.1)

has_unit-append : (key rest : Text) (unit : ℕ) → has_unit unit (key ++ (unit ∷ rest)) ≡ true
unfolding has_unit
has_unit-append [] rest unit = ground arith
has_unit-append (c ∷ key) rest unit = ground (arith, has_unit-append key rest unit)

-- Of a line without white space, whose value itself has an equals sign, only what stands before
-- that sign is read as the value.
pub line_entry-equals :
    (key value rest : Text)
    → IsSolid (key ++ (b'=' ∷ (value ++ (b'=' ∷ rest))))
    → All (λ c. c ≢ b'=') key
    → All (λ c. c ≢ b'=') value
    → line_entry (key ++ (b'=' ∷ (value ++ (b'=' ∷ rest)))) ≡ some (key, value)
unfolding line_entry
line_entry-equals key value rest solid h k =
    let line = key ++ (b'=' ∷ (value ++ (b'=' ∷ rest))) in
    let (a, b) = parts-append b'=' key (value ++ (b'=' ∷ rest)) h in
    let (c, d) = parts-append b'=' value rest k in
    ground (
      arith,
      trim_end-IsSolid line solid,
      trim_start-IsSolid line solid,
      has_unit-append key (value ++ (b'=' ∷ rest)) b'=',
      a,
      b,
      c,
    )
