-- ===== src/Findings/Ids.antt =====
-- What `resolve_ids` of backend/src/findings.rs promises of the ids that it writes back.
use doc_craft_agent.Prelude.{
  ℕ, ◌≤◌, ◌<◌, ◌≡◌, refl, ap, sym, Bool, true, false, not, ◌&&◌, List, [], ◌∷◌, ok, leb, ltb, arith,
  Bool-cases, >>=-eq-ok, length, Text, filter, contains, starts_with, starts_with_refl,
  starts_with_trans, ensure->>=-ok, ok_injective, suc, All, inl, inr,
}
use mathlib.Core.Path.{subst}
use doc_craft_agent.Model.{Evidence}
use doc_craft_agent.Findings.{is_id, only, matches, resolve_from, resolve_ids}

-- Each id stands for exactly one passage of the evidence: the passage is the only one whose id
-- begins with the citation, and the id written is that of the passage.
abbrev pub Resolves : List Evidence → List Text → List Text → Type 0
Resolves evidence [] [] = Unit
Resolves evidence [] (full ∷ fulls) = ⊥
Resolves evidence (id ∷ ids) [] = ⊥
Resolves evidence (id ∷ ids) (full ∷ fulls) =
    ((e : Evidence) × (matches evidence id ≡ e ∷ []) × (full ≡ e.id) × (starts_with full id ≡ true))
    × Resolves evidence ids fulls

-- No id is repeated, nor among those before.
abbrev pub IsFresh : List Text → List Text → Type 0
IsFresh seen [] = Unit
IsFresh seen (id ∷ ids) = (contains seen id ≡ false) × IsFresh (id ∷ seen) ids

only-ok : (es : List Evidence) {e : Evidence} → only es ≡ ok e → es ≡ e ∷ []
only-ok [] h = cc
only-ok (e ∷ []) h = ground arith
only-ok (e ∷ f ∷ es) h = cc

-- A passage that a filter keeps passes its test.
filter-holds :
    (p : Evidence → Bool) (es : List Evidence) {e : Evidence} → filter p es ≡ e ∷ [] → p e ≡ true
filter-holds p [] h = cc
filter-holds p (x ∷ es) {e} h = ground (arith, filter-holds p es {e = e})

-- The steps of one successful round.
record Round (evidence : List Evidence) (seen : List Text) (id : Text) (ids fulls : List Text)
    : Type 0 where
  found : Evidence
  rest : List Text
  shaped : is_id id ≡ true
  single : matches evidence id ≡ found ∷ []
  fresh : contains seen found.id ≡ false
  later : resolve_from evidence (found.id ∷ seen) ids ≡ ok rest
  result : fulls ≡ found.id ∷ rest

resolve_from-Round :
    (evidence : List Evidence) (seen : List Text) (id : Text) (ids : List Text) {fulls : List Text}
    → resolve_from evidence seen (id ∷ ids) ≡ ok fulls
    → Round evidence seen id ids fulls
unfolding resolve_from
resolve_from-Round evidence seen id ids h =
    let (shaped, h1) = ensure->>=-ok (is_id id) _ _ h in
    let (found, single, h2) = >>=-eq-ok (only (matches evidence id)) _ h1 in
    let (new, h3) = ensure->>=-ok (not (contains seen found.id)) _ _ h2 in
    let (rest, later, h4) = >>=-eq-ok (resolve_from evidence (found.id ∷ seen) ids) _ h3 in
    record {
      found = found;
      rest = rest;
      shaped = shaped;
      single = only-ok (matches evidence id) single;
      fresh = ground arith;
      later = later;
      result = sym (ok_injective h4);
    }

-- A round that meets these conditions succeeds.
resolve_from_of_Round :
    (evidence : List Evidence) (seen : List Text) (id : Text) (ids : List Text) {fulls : List Text}
    → Round evidence seen id ids fulls
    → resolve_from evidence seen (id ∷ ids) ≡ ok fulls
unfolding resolve_from
resolve_from_of_Round evidence seen id ids r = rw (r.shaped, r.single, r.fresh, r.later, r.result)

resolve_from_lem :
    (evidence : List Evidence) (seen ids : List Text) {fulls : List Text}
    → resolve_from evidence seen ids ≡ ok fulls
    → Resolves evidence ids fulls × IsFresh seen fulls
unfolding resolve_from
resolve_from_lem evidence seen [] {fulls} h = rw (sym (ok_injective h)) (tt, tt)
resolve_from_lem evidence seen (id ∷ ids) {fulls} h =
    let r = resolve_from-Round evidence seen id ids h in
    let later = resolve_from_lem evidence (r.found.id ∷ seen) ids r.later in
    rw r.result (
      (
        (r.found, r.single, refl, filter-holds (λ e. starts_with e.id id) evidence r.single),
        later.0,
      ),
      (r.fresh, later.1),
    )

-- Where `resolve_ids` succeeds, there is a full id for each citation, it is the id of the only
-- passage of the evidence whose id the citation begins, no full id is repeated, and the citations
-- are between one and the number accepted.
pub resolve_ids_lem :
    (ids : List Text) (evidence : List Evidence) (accepted : ℕ) {fulls : List Text}
    → resolve_ids ids evidence accepted ≡ ok fulls
    → Resolves evidence ids fulls × IsFresh [] fulls × (0 < length ids) × (length ids ≤ accepted)
unfolding resolve_ids
resolve_ids_lem ids evidence accepted {fulls} h =
    let (count, h1) = ensure->>=-ok (ltb 0 (length ids) && leb (length ids) accepted) _ _ h in
    let r = resolve_from_lem evidence [] ids h1 in (r.0, r.1, ground arith, ground arith)

filter_none :
    (p q : Evidence → Bool) (es : List Evidence)
    → ((x : Evidence) → q x ≡ true → p x ≡ true)
    → filter p es ≡ []
    → filter q es ≡ []
filter_none p q [] imp h = refl
filter_none p q (x ∷ es) imp h = ground (arith, imp x, filter_none p q es imp)

-- The passage that a prefix determines, its full id determines too.
filter_narrows :
    (p q : Evidence → Bool) (es : List Evidence) (e : Evidence)
    → ((x : Evidence) → q x ≡ true → p x ≡ true)
    → filter p es ≡ e ∷ []
    → q e ≡ true
    → filter q es ≡ e ∷ []
filter_narrows p q [] e imp single h = cc
filter_narrows p q (x ∷ es) e imp single h =
    ground (arith, imp x, filter_none p q es imp, filter_narrows p q es e imp)

filter-head :
    (p : Evidence → Bool) (x : Evidence) (es : List Evidence) {e : Evidence}
    → p x ≡ true
    → filter p (x ∷ es) ≡ e ∷ []
    → x ≡ e
filter-head p x es kept h = ground arith

filter-tail :
    (p : Evidence → Bool) (x : Evidence) (es : List Evidence) {e : Evidence}
    → p x ≡ false
    → filter p (x ∷ es) ≡ e ∷ []
    → filter p es ≡ e ∷ []
filter-tail p x es passed h = ground arith

filter-All :
    (p : Evidence → Bool) (P : Evidence → Type 0) (es : List Evidence) {e : Evidence}
    → All P es
    → filter p es ≡ e ∷ []
    → P e
filter-All p P [] all h = cc
filter-All p P (x ∷ es) {e} all h = elim (Bool-cases (p x)) [
  | inl kept ↦ subst P (filter-head p x es kept h) all.0
  | inr passed ↦ filter-All p P es all.1 (filter-tail p x es passed h)
]

resolve_from_again :
    (evidence : List Evidence) (seen ids : List Text) {fulls : List Text}
    → All (λ (e : Evidence). is_id e.id ≡ true) evidence
    → resolve_from evidence seen ids ≡ ok fulls
    → resolve_from evidence seen fulls ≡ ok fulls
unfolding resolve_from
resolve_from_again evidence seen [] {fulls} shaped h = rw (sym (ok_injective h)) refl
resolve_from_again evidence seen (id ∷ ids) {fulls} shaped h =
    let r = resolve_from-Round evidence seen id ids h in
    let prefix = filter-holds (λ e. starts_with e.id id) evidence r.single in
    let again =
      filter_narrows (λ e. starts_with e.id id) (λ e. starts_with e.id r.found.id) evidence r.found
        (λ x q. starts_with_trans x.id r.found.id id q prefix) r.single
        (starts_with_refl r.found.id) in
    rw r.result (
      resolve_from_of_Round evidence seen r.found.id r.rest (record {
        found = r.found;
        rest = r.rest;
        shaped =
            filter-All (λ e. starts_with e.id id) (λ (e : Evidence). is_id e.id ≡ true) evidence
              shaped r.single;
        single = again;
        fresh = r.fresh;
        later = resolve_from_again evidence (r.found.id ∷ seen) ids shaped r.later;
        result = refl;
      }))

resolve_from-length :
    (evidence : List Evidence) (seen ids : List Text) {fulls : List Text}
    → resolve_from evidence seen ids ≡ ok fulls
    → length fulls ≡ length ids
unfolding resolve_from
resolve_from-length evidence seen [] {fulls} h = rw (sym (ok_injective h)) refl
resolve_from-length evidence seen (id ∷ ids) h =
    let r = resolve_from-Round evidence seen id ids h in
    rw r.result (ap suc (resolve_from-length evidence (r.found.id ∷ seen) ids r.later))

-- The ids that `resolve_ids` writes resolve to themselves, if the evidence has ids of the shape
-- that it accepts: what was resolved once is accepted again and unchanged.
pub resolve_ids_again :
    (ids : List Text) (evidence : List Evidence) (accepted : ℕ) {fulls : List Text}
    → All (λ (e : Evidence). is_id e.id ≡ true) evidence
    → resolve_ids ids evidence accepted ≡ ok fulls
    → resolve_ids fulls evidence accepted ≡ ok fulls
unfolding resolve_ids
resolve_ids_again ids evidence accepted shaped h =
    let (count, h1) = ensure->>=-ok (ltb 0 (length ids) && leb (length ids) accepted) _ _ h in
    rw (resolve_from-length evidence [] ids h1, count)
      (resolve_from_again evidence [] ids shaped h1)
