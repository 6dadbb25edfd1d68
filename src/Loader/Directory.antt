-- ===== src/Loader/Directory.antt =====
-- rabbitmq-server.ts (`consumersDirectory`) and worker-manager.ts (`tasksDirectory`): the files of a
-- directory that are imported, and what is done with each.
use nodejs_template.Prelude.{
  Bool, true, false, not, ◌&&◌, List, [], ◌∷◌, ◌++◌, any, refl, ap, ◌≡◌, ◌⊎◌, inl, inr,
  if◌then◌else◌,
}
use nodejs_template.Text.{Text, text, starts_with, includes, to_upper_case}
use mathlib.Core.List.{reverse}

-- `s.endsWith(tail)`
unfoldable pub ends_with : Text → Text → Bool
ends_with tail s = starts_with (reverse tail) (reverse s)

abbrev pub extensions_to_search : List Text
extensions_to_search = text ".TS" ∷ text ".JS" ∷ []

abbrev pub ignore_if_includes : List Text
ignore_if_includes = text ".MAP." ∷ text ".SPEC." ∷ text ".TEST." ∷ []

unfoldable pub is_valid_file : Text → Bool
unfolding ends_with to_upper_case
is_valid_file file_name =
    let upper = to_upper_case file_name in
    any (λ e. ends_with e upper) extensions_to_search
    && not (any (λ part. includes part upper) ignore_if_includes)

-- What `import` settles with: a failure, a default export that is a set-up function, or another.
pub data Imported (S : Type 0) : Type 0 where
  failed : Imported S
  setup : (S → S) → Imported S
  other : Imported S

unfoldable pub run_setup : {S : Type 0} → Imported S → S → S
run_setup failed s = s
run_setup (setup f) s = f s
run_setup other s = s

unfoldable pub load_files : {S : Type 0} → (Text → Imported S) → List Text → S → S
unfolding is_valid_file run_setup
load_files imports [] s = s
load_files imports (file ∷ rest) s =
    load_files imports rest (if is_valid_file file then run_setup (imports file) s else s)

load_files-append :
    {S : Type 0} (imports : Text → Imported S) (xs ys : List Text) (s : S)
    → load_files imports (xs ++ ys) s ≡ load_files imports ys (load_files imports xs s)
unfolding load_files
load_files-append imports [] ys s = refl
load_files-append imports (x ∷ xs) ys s = load_files-append imports xs ys _

run_setup-skip :
    {S : Type 0} (valid : Bool) (i : Imported S) (s : S)
    → (valid ≡ false) ⊎ (i ≡ failed)
    → (if valid then run_setup i s else s) ≡ s
unfolding run_setup
run_setup-skip true failed s h = refl
run_setup-skip true (setup f) s (inl e) = cc
run_setup-skip true (setup f) s (inr e) = cc
run_setup-skip true other s h = refl
run_setup-skip false i s h = refl

-- A file that fails to load, or that is not one to load, leaves the others as they are: the rest of
-- the directory is set up as if it were not there.
load_files-skip :
    {S : Type 0} (imports : Text → Imported S) (xs ys : List Text) (file : Text) (s : S)
    → (is_valid_file file ≡ false) ⊎ (imports file ≡ failed)
    → load_files imports (xs ++ file ∷ ys) s ≡ load_files imports (xs ++ ys) s
load_files-skip imports xs ys file s h =
    rw (load_files-append imports xs (file ∷ ys) s, load_files-append imports xs ys s)
      (unfold load_files in
        ap (load_files imports ys) (run_setup-skip (is_valid_file file) (imports file) _ h))
