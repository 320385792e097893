-- ===== src/Findings/Packing.antt =====
-- `pack_evidence` of backend/src/findings.rs: passages fill a request, one of each search at a time.
use doc_craft_agent.Prelude.{
  ℕ, zero, suc, ◌+◌, ◌≤◌, max, ◌≡◌, refl, ◌&&◌, not, false, Option, none, some, List, [], ◌∷◌, ◌++◌,
  map, leb, if◌then◌else◌, length, get_elem?, sum, Text, len, contains, arith, Bool-cases, inl, inr,
}
use doc_craft_agent.Model.{Evidence}

pub record Packed : Type 0 where
  pub selected : List Evidence
  pub seen : List Text
  pub used : ℕ

abbrev pub size : Evidence → ℕ
size e = len e.content + len e.path + 256

-- `size` bytes are left, and the passage is not there yet
unfoldable pub pack_one : ℕ → Evidence → Packed → Packed
pack_one limit e p =
    if leb (p.used + size e) limit && not (contains p.seen e.id)
    then record { selected = p.selected ++ (e ∷ []); seen = e.id ∷ p.seen; used = p.used + size e }
    else p

-- what `group.get(index)` found
unfoldable pub pack_found : ℕ → Option Evidence → Packed → Packed
unfolding pack_one
pack_found limit none p = p
pack_found limit (some e) p = pack_one limit e p

-- the loop over the groups, at one index
unfoldable pub pack_index : ℕ → ℕ → List (List Evidence) → Packed → Packed
unfolding pack_found
pack_index limit index [] p = p
pack_index limit index (group ∷ groups) p =
    pack_index limit index groups (pack_found limit (get_elem? group index) p)

-- the loop over `rounds` indices from `index`
unfoldable pub pack_rounds : ℕ → List (List Evidence) → ℕ → ℕ → Packed → Packed
unfolding pack_index
pack_rounds limit groups zero index p = p
pack_rounds limit groups (suc rounds) index p =
    pack_rounds limit groups rounds (suc index) (pack_index limit index groups p)

abbrev pub longest : List (List Evidence) → ℕ
longest [] = 0
longest (group ∷ groups) = max (length group) (longest groups)

abbrev nothing : Packed
nothing = record { selected = []; seen = []; used = 0 }

unfoldable pub pack_evidence : List (List Evidence) → ℕ → List Evidence
unfolding pack_rounds
pack_evidence groups limit = (pack_rounds limit groups (longest groups) 0 nothing).selected

-- No id stands twice in the list, last first.
abbrev pub Differ : List Text → Type 0
Differ [] = Unit
Differ (id ∷ ids) = (contains ids id ≡ false) × Differ ids

abbrev pub ids_of : List Evidence → List Text → List Text
ids_of [] seen = seen
ids_of (e ∷ es) seen = ids_of es (e.id ∷ seen)

ids_of-append :
    (es : List Evidence) (e : Evidence) (seen : List Text)
    → ids_of (es ++ (e ∷ [])) seen ≡ e.id ∷ ids_of es seen
ids_of-append [] e seen = refl
ids_of-append (f ∷ es) e seen = ids_of-append es e (f.id ∷ seen)

abbrev pub sizes : List Evidence → ℕ
sizes es = sum (map size es)

sizes-append : (es : List Evidence) (e : Evidence) → sizes (es ++ (e ∷ [])) ≡ sizes es + size e
sizes-append [] e = omega arith
sizes-append (f ∷ es) e = omega (arith, sizes-append es e)

-- The counters tell of what is selected.
abbrev Tells : ℕ → Packed → Type 0
Tells limit p =
    (sizes p.selected ≡ p.used) × (p.used ≤ limit) × (ids_of p.selected [] ≡ p.seen) × Differ p.seen

Tells-pack_one :
    (limit : ℕ) (e : Evidence) (p : Packed) → Tells limit p → Tells limit (pack_one limit e p)
unfolding pack_one
Tells-pack_one limit e p h =
    elim (Bool-cases (leb (p.used + size e) limit && not (contains p.seen e.id))) [
      | inl fits ↦ rw fits (
        omega (arith, sizes-append p.selected e, h.0),
        ground arith,
        ground (arith, ids_of-append p.selected e [], h.2),
        (ground arith, h.3),
      )
      | inr full ↦ rw full h
    ]

Tells-pack_found :
    (limit : ℕ) (found : Option Evidence) (p : Packed)
    → Tells limit p
    → Tells limit (pack_found limit found p)
unfolding pack_found
Tells-pack_found limit none p h = h
Tells-pack_found limit (some e) p h = Tells-pack_one limit e p h

Tells-pack_index :
    (limit index : ℕ) (groups : List (List Evidence)) (p : Packed)
    → Tells limit p
    → Tells limit (pack_index limit index groups p)
unfolding pack_index
Tells-pack_index limit index [] p h = h
Tells-pack_index limit index (group ∷ groups) p h =
    Tells-pack_index limit index groups (pack_found limit (get_elem? group index) p)
      (Tells-pack_found limit (get_elem? group index) p h)

Tells-pack_rounds :
    (limit : ℕ) (groups : List (List Evidence)) (rounds index : ℕ) (p : Packed)
    → Tells limit p
    → Tells limit (pack_rounds limit groups rounds index p)
unfolding pack_rounds
Tells-pack_rounds limit groups zero index p h = h
Tells-pack_rounds limit groups (suc rounds) index p h =
    Tells-pack_rounds limit groups rounds (suc index) (pack_index limit index groups p)
      (Tells-pack_index limit index groups p h)

-- The passages that are packed take at most the bytes allowed, and no id is packed twice.
pub pack_evidence-Differ :
    (groups : List (List Evidence)) (limit : ℕ)
    → (sizes (pack_evidence groups limit) ≤ limit) × Differ (ids_of (pack_evidence groups limit) [])
unfolding pack_evidence
pack_evidence-Differ groups limit =
    let told =
      Tells-pack_rounds limit groups (longest groups) 0 nothing (refl, omega arith, refl, tt) in
    (rw told.0 told.1, rw told.2 told.3)
