-- ===== src/Source/Tasks/Inside.antt =====
-- A task that is accepted names paths inside the allowed roots (`validate_task` of
-- backend/src/source.rs).
use doc_craft_agent.Prelude.{
  ◌≤◌, ◌≡◌, ◌≢◌, ◌∙◌, ◌⊎◌, inl, inr, refl, ap, sym, Bool, true, false, not, ◌&&◌, ◌||◌, Bool-cases,
  text_eq, text_eq_refl, eq_of_text_eq, Option, none, some, List, [], ◌∷◌, ◌++◌, ok, ensure->>=-ok,
  >>=-eq-ok, ok_injective, arith, ltb, Text, is_empty, trim, length, All,
}
use doc_craft_agent.Prelude.Floats.{Floats}
use doc_craft_agent.Model.{TaskConfig, Settings}
use doc_craft_agent.Source.Tasks.{
  FilePath, Files, Error, or_error, is_below, is_below_some, matches_root, path_eq, is_md,
  target_path, check_sources, run_limits_ok, prices_known, validate_task, no_parent, no_directory,
  no_name, no_source,
}

or_error-ok : {A : Type 0} (e : Error) (o : Option A) {a : A} → or_error e o ≡ ok a → o ≡ some a
or_error-ok e none h = cc
or_error-ok e (some b) h = ap some (ok_injective h)

is_below-rest :
    (path root : FilePath) → is_below path root ≡ true → (rest : FilePath) × (path ≡ root ++ rest)
unfolding is_below
is_below-rest path [] h = (path, refl)
is_below-rest [] (r ∷ root) h = cc
is_below-rest (p ∷ path) (r ∷ root) h =
    let (same, inside) = and_parts (text_eq p r) (is_below path root) h in
    let (rest, e) = is_below-rest path root inside in
    (rest, ap (λ c. c ∷ path) (eq_of_text_eq p r same) ∙ ap (λ t. r ∷ t) e)
  where
    and_parts : (a b : Bool) → (a && b) ≡ true → (a ≡ true) × (b ≡ true)
    and_parts a b h = ground arith

path_eq_refl : (path : FilePath) → path_eq path path ≡ true
unfolding path_eq
path_eq_refl [] = refl
path_eq_refl (p ∷ path) = rw (text_eq_refl p) (path_eq_refl path)

path_eq-apart : (path other : FilePath) → path_eq path other ≡ false → path ≢ other
path_eq-apart path other h e = differ (rw e at h)
  where
    both : (b : Bool) → b ≡ true → b ≡ false → ⊥
    both b h k = cc

    differ : path_eq other other ≡ false → ⊥
    differ k = both (path_eq other other) (path_eq_refl other) k

module _ (files : Files) where
  open files use {is_absolute, extension, parent, file_name, canonicalize, is_symlink}

  -- some root of the list has a canonical path whose components begin the path
  abbrev pub Below : FilePath → List Text → Type 0
  Below path [] = ⊥
  Below path (r ∷ roots) =
      ((root : FilePath) × (rest : FilePath) × (canonicalize r ≡ some root) × (path ≡ root ++ rest))
      ⊎ Below path roots

  is_below_some-rest :
      (path : FilePath) (o : Option FilePath)
      → is_below_some path o ≡ true
      → (root : FilePath) × (rest : FilePath) × (o ≡ some root) × (path ≡ root ++ rest)
  is_below_some-rest path none h = cc
  is_below_some-rest path (some root) h =
      let (rest, e) = is_below-rest path root h in (root, rest, refl, e)

  matches_root-Below :
      (path : FilePath) (roots : List Text)
      → matches_root files path roots ≡ true
      → Below path roots
  unfolding matches_root
  matches_root-Below path [] h = cc
  matches_root-Below path (r ∷ roots) h = elim (Bool-cases (is_below_some path (canonicalize r))) [
    | inl here ↦ inl (is_below_some-rest path (canonicalize r) here)
    | inr other ↦ inr (matches_root-Below path roots (later _ _ other h))
  ]
    where
      later : (a b : Bool) → a ≡ false → (a || b) ≡ true → b ≡ true
      later a b h k = ground arith

  -- the document of a task: a Markdown file, and no link, in a directory below one of the roots
  abbrev pub Target : Text → List Text → FilePath → Type 0
  Target path roots target =
      (directory : Text) × (above : FilePath) × (name : Text) × (is_absolute path ≡ true)
      × (is_md files (extension path) ≡ true)
      × (parent path ≡ some directory)
      × (canonicalize directory ≡ some above)
      × Below above roots
      × (file_name path ≡ some name)
      × (target ≡ above ++ (name ∷ []))
      × (is_symlink target ≡ false)

  -- a source: it is there, below one of the roots, and not the document
  abbrev pub SourceOk : List Text → FilePath → Text → Type 0
  SourceOk roots target source =
      (path : FilePath) × (canonicalize source ≡ some path) × Below path roots × (path ≢ target)

  not-true : (b : Bool) → not b ≡ true → b ≡ false
  not-true b h = ground arith

  target_path-Target :
      (path : Text) (roots : List Text) {target : FilePath}
      → target_path files path roots ≡ ok target
      → Target path roots target
  unfolding target_path
  target_path-Target path roots {target} h =
      let (absolute, h1) = ensure->>=-ok (is_absolute path) _ _ h in
      let (md, h2) = ensure->>=-ok (is_md files (extension path)) _ _ h1 in
      let (directory, e, h3) = >>=-eq-ok (or_error no_parent (parent path)) _ h2 in
      let (above, f, h4) = >>=-eq-ok (or_error no_directory (canonicalize directory)) _ h3 in
      let (inside, h5) = ensure->>=-ok (matches_root files above roots) _ _ h4 in
      let (name, g, h6) = >>=-eq-ok (or_error no_name (file_name path)) _ h5 in
      let (plain, h7) = ensure->>=-ok (not (is_symlink (above ++ (name ∷ [])))) _ _ h6 in
      let same : above ++ (name ∷ []) ≡ target = ok_injective h7 in
      (
        directory,
        above,
        name,
        absolute,
        md,
        or_error-ok _ (parent path) e,
        or_error-ok _ (canonicalize directory) f,
        matches_root-Below above roots inside,
        or_error-ok _ (file_name path) g,
        sym same,
        rw⁻¹ same (not-true _ plain),
      )

  check_sources-All :
      (target : FilePath) (roots sources : List Text)
      → check_sources files target roots sources ≡ ok tt
      → All (λ s. SourceOk roots target s) sources
  unfolding check_sources
  check_sources-All target roots [] h = tt
  check_sources-All target roots (source ∷ sources) h =
      let (path, e, h1) = >>=-eq-ok (or_error no_source (canonicalize source)) _ h in
      let (inside, h2) = ensure->>=-ok (matches_root files path roots) _ _ h1 in
      let (other, h3) = ensure->>=-ok (not (path_eq path target)) _ _ h2 in
      (
        (
          path,
          or_error-ok _ (canonicalize source) e,
          matches_root-Below path roots inside,
          path_eq-apart path target (not-true _ other),
        ),
        check_sources-All target roots sources h3,
      )

module _ (floats : Floats) (files : Files) where
  open floats use {F}

  -- A task that is accepted names as its document a Markdown file, which is no link, in a directory
  -- whose canonical path begins with the canonical path of an output root, component by component;
  -- each of its sources, of which there is one at least, is there, its canonical path begins with that
  -- of a source root, and it is not that file.
  pub validate_task-Target :
      (t : TaskConfig F) (s : Settings F)
      → validate_task floats files t s ≡ ok tt
      → (1 ≤ length t.sources)
        × ((target : FilePath) × Target files t.target s.output_roots target
            × All (λ source. SourceOk files s.source_roots target source) t.sources)
  unfolding validate_task
  validate_task-Target t s h =
      let (required, h1) =
        ensure->>=-ok
          (not (is_empty (trim t.name))
            && not (is_empty (trim t.direction))
            && ltb 0 (length t.sources))
          _ _ h in
      let (_, h2) = ensure->>=-ok _ _ _ h1 in
      let (_, h3) = ensure->>=-ok (run_limits_ok floats files t) _ _ h2 in
      let (_, h4) = ensure->>=-ok (prices_known floats files t s) _ _ h3 in
      let (_, h5) = ensure->>=-ok (files.compiles t.include) _ _ h4 in
      let (_, h6) = ensure->>=-ok (files.compiles t.exclude) _ _ h5 in
      let (target, e, h7) = >>=-eq-ok (target_path files t.target s.output_roots) _ h6 in
      (
        ground (arith, required),
        (
          target,
          target_path-Target files t.target s.output_roots e,
          check_sources-All files target s.source_roots t.sources h7,
        ),
      )
