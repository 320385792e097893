-- ===== src/Prelude/Dicts.antt =====
-- A map with text keys: a `HashMap<String, V>`, the rows of a table by their id, or the files of a
-- directory by their stem.
use doc_craft_agent.Prelude.Tests.{if◌then◌else◌}
use doc_craft_agent.Prelude.Strings.{Text, text_eq, text_eq_iff}
use mathlib.Core.Path.{◌≡◌}
use mathlib.Core.Option.{Option, none, some}
use mathlib.Core.List.{List, [], ◌∷◌}
use native.Mathlib.Omega.{arith}

abbrev pub Dict {ℓ} : Type ℓ → Type ℓ
Dict V = List (Text × V)

module _ {ℓ} {V : Type ℓ} where
  unfoldable pub find : Text → Dict V → Option V
  find k [] = none
  find k ((j, v) ∷ d) = if text_eq k j then some v else find k d

  unfoldable pub remove : Text → Dict V → Dict V
  remove k [] = []
  remove k ((j, v) ∷ d) = if text_eq k j then remove k d else (j, v) ∷ remove k d

  unfoldable pub put : Text → V → Dict V → Dict V
  unfolding remove
  put k v d = (k, v) ∷ remove k d

  -- what becomes of an entry, where it is there
  abbrev pub changed : (V → V) → Option V → Option V
  changed f none = none
  changed f (some v) = some (f v)

  -- `UPDATE ... WHERE id = k`: without a row it does nothing
  unfoldable pub update : Text → (V → V) → Dict V → Dict V
  update k f [] = []
  update k f ((j, v) ∷ d) = if text_eq k j then (j, f v) ∷ update k f d else (j, v) ∷ update k f d

  pub find-remove :
      (j k : Text) (d : Dict V) → find j (remove k d) ≡ (if text_eq j k then none else find j d)
  unfolding find remove
  find-remove j k [] = ground arith
  find-remove j k ((i, v) ∷ d) =
      ground (arith, text_eq_iff j k, text_eq_iff k i, text_eq_iff j i, find-remove j k d)

  pub find-put :
      (j k : Text) (v : V) (d : Dict V)
      → find j (put k v d) ≡ (if text_eq j k then some v else find j d)
  unfolding find put
  find-put j k v d = ground (arith, find-remove j k d)

  pub find-update :
      (j k : Text) (f : V → V) (d : Dict V)
      → find j (update k f d) ≡ (if text_eq j k then changed f (find j d) else find j d)
  unfolding find update
  find-update j k f [] = ground arith
  find-update j k f ((i, v) ∷ d) =
      ground (arith, text_eq_iff j k, text_eq_iff k i, text_eq_iff j i, find-update j k f d)
