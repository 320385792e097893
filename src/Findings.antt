-- ===== src/Findings.antt =====
-- backend/src/findings.rs: the citations that a reading or a plan makes are resolved against the
-- evidence of the request.
pub mod Ids
pub mod Briefs
pub mod Packing
mod Tests
use doc_craft_agent.Prelude.{
  ℕ, Bool, true, false, not, ◌&&◌, List, [], ◌∷◌, Result, ok, err, ◌>>=◌, ◌>>◌, ensure, leb, ltb,
  length, Text, len, is_empty, trim, all, filter, contains, starts_with, is_ascii_hexdigit,
}
use doc_craft_agent.Model.{Evidence}

-- the `ensure!`s of `resolve_ids`
pub data Error : Type 0 where
  id_count not_an_id ambiguous repeated : Error

abbrev pub max_section_anchors : ℕ
max_section_anchors = 8

unfoldable pub bounded_text : Text → ℕ → Bool
unfolding is_empty trim len
bounded_text value max = not (is_empty (trim value)) && leb (len value) max

-- the shape of a citation, before it is looked up
unfoldable pub is_id : Text → Bool
unfolding len is_ascii_hexdigit
is_id id = leb 8 (len id) && leb (len id) 64 && all is_ascii_hexdigit id

-- `matches.len() == 1`, and the one match
abbrev pub only : List Evidence → Result Error Evidence
only [] = err ambiguous
only (e ∷ []) = ok e
only (e ∷ f ∷ es) = err ambiguous

abbrev pub matches : List Evidence → Text → List Evidence
matches evidence id = filter (λ e. starts_with e.id id) evidence

-- the loop of `resolve_ids`; it writes each full id in place of the prefix
unfoldable pub resolve_from : List Evidence → List Text → List Text → Result Error (List Text)
resolve_from evidence seen [] = ok []
resolve_from evidence seen (id ∷ ids) = do
  ensure (is_id id) not_an_id
  found ← only (matches evidence id)
  ensure (not (contains seen found.id)) repeated
  rest ← resolve_from evidence (found.id ∷ seen) ids
  ok (found.id ∷ rest)

-- `requested` and `subject` only word the message.
unfoldable pub resolve_ids : List Text → List Evidence → ℕ → Result Error (List Text)
resolve_ids ids evidence accepted = do
  ensure (ltb 0 (length ids) && leb (length ids) accepted) id_count
  resolve_from evidence [] ids
