-- ===== src/Source/Tasks.antt =====
-- `validate_task` of backend/src/source.rs: what a task may read and write. The file system, the
-- methods of `Path` and the compiler of glob patterns are parameters; a canonical path is the list
-- of its components.
pub mod Inside
mod Tests
use doc_craft_agent.Prelude.{
  ℕ, Bool, true, false, not, ◌&&◌, ◌||◌, Option, none, some, List, [], ◌∷◌, ◌++◌, Result, ok, err,
  ◌>>=◌, ◌>>◌, ensure, leb, ltb, ◌==◌, Text, text, text_eq, len, is_empty, trim, length, any,
}
use doc_craft_agent.Prelude.Floats.{Floats}
use doc_craft_agent.Model.{TaskConfig, Settings}

abbrev pub FilePath : Type 0
FilePath = List Text

pub record Files : Type 0 where
  pub is_absolute : Text → Bool
  pub extension : Text → Option Text
  pub parent : Text → Option Text
  pub file_name : Text → Option Text
  -- `std::fs::canonicalize(…).ok()`
  pub canonicalize : Text → Option FilePath
  pub is_symlink : FilePath → Bool
  pub compiles : List Text → Bool

-- the `bail!`s of `validate_task` and of what it calls
pub data Error : Type 0 where
  required too_large bad_limits no_prices bad_pattern : Error
  not_absolute not_md no_parent no_directory outside_output no_name symlink : Error
  no_source outside_source source_is_target : Error

abbrev pub or_error {ℓ} : {A : Type ℓ} → Error → Option A → Result Error A
or_error e none = err e
or_error e (some a) = ok a

-- `path.starts_with(root)`, by components
unfoldable pub is_below : FilePath → FilePath → Bool
is_below path [] = true
is_below [] (r ∷ root) = false
is_below (p ∷ path) (r ∷ root) = text_eq p r && is_below path root

unfoldable pub path_eq : FilePath → FilePath → Bool
path_eq [] [] = true
path_eq [] (r ∷ root) = false
path_eq (p ∷ path) [] = false
path_eq (p ∷ path) (r ∷ root) = text_eq p r && path_eq path root

abbrev pub is_below_some : FilePath → Option FilePath → Bool
is_below_some path none = false
is_below_some path (some root) = is_below path root

module _ (files : Files) where
  open files use {is_absolute, extension, parent, file_name, canonicalize, is_symlink, compiles}

  unfoldable pub matches_root : FilePath → List Text → Bool
  unfolding is_below
  matches_root path roots = any (λ r. is_below_some path (canonicalize r)) roots

  abbrev pub is_md : Option Text → Bool
  is_md none = false
  is_md (some e) = text_eq e (text "md")

  unfoldable pub target_path : Text → List Text → Result Error FilePath
  unfolding matches_root
  target_path path roots = do
    ensure (is_absolute path) not_absolute
    ensure (is_md (extension path)) not_md
    directory ← or_error no_parent (parent path)
    above ← or_error no_directory (canonicalize directory)
    ensure (matches_root above roots) outside_output
    name ← or_error no_name (file_name path)
    ensure (not (is_symlink (above ++ (name ∷ [])))) symlink
    ok (above ++ (name ∷ []))

  -- the loop over the sources
  unfoldable pub check_sources : FilePath → List Text → List Text → Result Error (Unit {0})
  unfolding matches_root path_eq
  check_sources target roots [] = ok tt
  check_sources target roots (source ∷ sources) = do
    path ← or_error no_source (canonicalize source)
    ensure (matches_root path roots) outside_source
    ensure (not (path_eq path target)) source_is_target
    check_sources target roots sources

module _ (floats : Floats) (files : Files) where
  open floats use {F, zero_f64, less, equal, is_finite}
  open files use {compiles}

  abbrev pub diagrams_ok : Option ℕ → Bool
  diagrams_ok none = true
  diagrams_ok (some n) = leb n 32

  unfoldable pub run_limits_ok : TaskConfig F → Bool
  run_limits_ok t =
      diagrams_ok t.max_diagrams
      && ltb 0 t.max_iterations
      && leb t.max_iterations 20
      && leb 30 t.max_seconds
      && leb t.max_seconds 604_800
      && leb 1024 t.max_tokens
      && is_finite t.max_cost
      && not (less t.max_cost zero_f64)

  unfoldable pub prices_known : TaskConfig F → Settings F → Bool
  prices_known t s =
      not (less zero_f64 t.max_cost)
      || not (equal s.llm.input_price zero_f64 || equal s.llm.output_price zero_f64)

  unfoldable pub validate_task : TaskConfig F → Settings F → Result Error (Unit {0})
  unfolding run_limits_ok prices_known target_path check_sources
  validate_task t s = do
    ensure
        (not (is_empty (trim t.name))
          && not (is_empty (trim t.direction))
          && ltb 0 (length t.sources))
        required
    ensure (leb (len t.direction) 32_000 && leb (len t.name) 200 && leb (length t.sources) 50)
        too_large
    ensure (run_limits_ok t) bad_limits
    ensure (prices_known t s) no_prices
    ensure (compiles t.include) bad_pattern
    ensure (compiles t.exclude) bad_pattern
    target ← target_path files t.target s.output_roots
    check_sources files target s.source_roots t.sources
