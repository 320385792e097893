-- ===== src/Findings/Tests.antt =====
-- Citations of three passages, resolved as backend/src/findings.rs does.
use doc_craft_agent.Prelude.{
  ◌≤◌, ◌<◌, ◌≡◌, refl, List, [], ◌∷◌, true, ok, err, All, length, Text, text, starts_with, contains,
  text_eq, len,
}
use doc_craft_agent.Model.{Evidence}
use doc_craft_agent.Findings.{is_id, resolve_from, resolve_ids, ambiguous}
use doc_craft_agent.Findings.Ids.{Resolves, IsFresh, resolve_ids_lem}
use doc_craft_agent.Findings.Packing.{
  pack_evidence, pack_rounds, pack_index, pack_found, pack_one, sizes, Differ, ids_of,
  pack_evidence-Differ,
}

abbrev passage : Text → Evidence
passage id = record { id = id; path = text "src/lib.rs"; start = 1; end = 9; content = text "fn" }

abbrev passages : List Evidence
passages =
    passage (text "0123456789abcdef")
    ∷ passage (text "01234567ffffffff")
    ∷ passage (text "fedcba9876543210")
    ∷ []

abbrev cited : List Text
cited = text "fedcba98" ∷ text "012345678" ∷ []

abbrev full : List Text
full = text "fedcba9876543210" ∷ text "0123456789abcdef" ∷ []

resolved : resolve_ids cited passages 8 ≡ ok full
unfolding resolve_ids resolve_from is_id starts_with contains
resolved = refl

shared_prefix : resolve_ids (text "01234567" ∷ []) passages 8 ≡ err ambiguous
unfolding resolve_ids resolve_from is_id starts_with contains
shared_prefix = refl

passages_shaped : All (λ (e : Evidence). is_id e.id ≡ true) passages
unfolding is_id
passages_shaped = (refl, (refl, (refl, tt)))

resolve_ids_lem_example :
    Resolves passages cited full × IsFresh [] full × (0 < length cited) × (length cited ≤ 8)
resolve_ids_lem_example = resolve_ids_lem cited passages 8 resolved

-- two searches, with one passage in common, into the bytes of two passages
abbrev searches : List (List Evidence)
searches = passages ∷ (passage (text "0123456789abcdef") ∷ []) ∷ []

two_fit :
    pack_evidence searches 540
    ≡ passage (text "0123456789abcdef") ∷ passage (text "01234567ffffffff") ∷ []
unfolding pack_evidence pack_rounds pack_index pack_found pack_one contains text_eq len
two_fit = refl

pack_evidence-Differ_example :
    (sizes (pack_evidence searches 540) ≤ 540) × Differ (ids_of (pack_evidence searches 540) [])
pack_evidence-Differ_example = pack_evidence-Differ searches 540
