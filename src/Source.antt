-- ===== src/Source.antt =====
-- backend/src/source.rs: which files tell of runtime behaviour, and which are indexed but not read.
-- Unicode `to_lowercase`, `Path::extension` and `Path::file_name` (empty without one) are
-- parameters.
pub mod Tasks
pub mod Terms
mod Tests
use doc_craft_agent.Prelude.{
  Bool, false, not, ◌&&◌, ◌||◌, Option, none, some, List, [], ◌∷◌, Text, text, contains,
  starts_with, any, leb, ◌-◌, ◌==◌, ℕ, if◌then◌else◌, len_utf8,
}
use mathlib.Core.List.{reverse}

-- `s.contains(part)`
unfoldable pub has_part : Text → Text → Bool
unfolding starts_with
has_part [] part = starts_with [] part
has_part (c ∷ s) part = starts_with (c ∷ s) part || has_part s part

abbrev pub implementation_extensions : List Text
implementation_extensions =
    text "rs"
    ∷ text "js"
    ∷ text "jsx"
    ∷ text "ts"
    ∷ text "tsx"
    ∷ text "py"
    ∷ text "java"
    ∷ text "go"
    ∷ text "c"
    ∷ text "h"
    ∷ text "cpp"
    ∷ text "cs"
    ∷ text "sql"
    ∷ text "mjs"
    ∷ text "cjs"
    ∷ text "sh"
    ∷ text "bash"
    ∷ text "zsh"
    ∷ text "bat"
    ∷ text "cmd"
    ∷ text "ps1"
    ∷ []

module _ (lowercase : Text → Text) (extension : Text → Option Text) where
  unfoldable pub is_implementation : Text → Bool
  unfolding has_part
  is_implementation path =
      let lower = lowercase path in
      not (has_part lower (text "/test/"))
      && not (has_part lower (text "/tests/"))
      && not (has_part lower (text ".test."))
      && not (has_part lower (text ".spec."))
      && elim (extension path) [ none ↦ false | some e ↦ contains implementation_extensions e ]

abbrev pub lockfiles : List Text
lockfiles =
    text "package-lock.json"
    ∷ text "npm-shrinkwrap.json"
    ∷ text "yarn.lock"
    ∷ text "pnpm-lock.yaml"
    ∷ text "bun.lock"
    ∷ text "cargo.lock"
    ∷ text "poetry.lock"
    ∷ text "pipfile.lock"
    ∷ text "uv.lock"
    ∷ text "pdm.lock"
    ∷ text "composer.lock"
    ∷ text "gemfile.lock"
    ∷ text "go.sum"
    ∷ text "flake.lock"
    ∷ text "packages.lock.json"
    ∷ text "gradle.lockfile"
    ∷ text "pubspec.lock"
    ∷ text "podfile.lock"
    ∷ []

abbrev pub minified : List Text
minified =
    text ".min.js" ∷ text ".min.mjs" ∷ text ".min.css" ∷ text ".js.map" ∷ text ".css.map" ∷ []

abbrev pub generated : List Text
generated = text ".pb.go" ∷ text "_pb2.py" ∷ text "_pb2_grpc.py" ∷ text ".g.dart" ∷ []

abbrev pub markers : List Text
markers =
    text "@generated"
    ∷ text "do not edit"
    ∷ text "code generated"
    ∷ text "auto-generated"
    ∷ text "autogenerated"
    ∷ text "automatically generated"
    ∷ []

-- `s.ends_with(suffix)`
abbrev pub ends_with : Text → Text → Bool
ends_with s suffix = starts_with (reverse s) (reverse suffix)

abbrev before : ℕ → Option Text → Option Text
before c none = none
before c (some s) = some (c ∷ s)

-- `s.get(..s.len().min(n))`: none inside a character
unfoldable pub get_prefix : ℕ → Text → Option Text
get_prefix n [] = some []
get_prefix n (c ∷ s) =
    let rest = get_prefix (n - len_utf8 c) s in
    if n == 0 then some [] else if leb (len_utf8 c) n then before c rest else none

abbrev pub head_of : Text → Text
head_of head = elim (get_prefix 600 head) [ none ↦ head | some prefix ↦ prefix ]

module _ (lowercase file_name : Text → Text) where
  unfoldable pub reading_exclusion : Text → Text → Option Text
  unfolding get_prefix has_part
  reading_exclusion path head =
      let name = lowercase (file_name path) in
      if contains lockfiles name
      then some (text "lockfile")
      else if any (ends_with name) minified
      then some (text "minified")
      else if has_part name (text ".generated.")
          || has_part name (text "_generated.")
          || any (ends_with name) generated
      then some (text "generated")
      else if any (has_part (lowercase (head_of head))) markers
      then some (text "generated")
      else none
