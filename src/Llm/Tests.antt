-- ===== src/Llm/Tests.antt =====
-- Two responses of a model (backend/src/llm.rs), one of which breaks a string.
use doc_craft_agent.Prelude.{
  ◌≡◌, refl, true, false, [], ◌∷◌, map, none, text_eq, starts_with, some, text,
}
use doc_craft_agent.Llm.{
  repair_json_strings, repair_from, move, on_inside, on_backslash, closes_string, closes,
  after_brackets, hex_escape,
}
use doc_craft_agent.Source.{has_part}
use doc_craft_agent.Llm.Answers.{
  retryable_status, content_dropped, reasoning_dominated, provider_quota_exhausted,
}

bare_quotes_escaped :
    repair_json_strings (text "{\"a\":\"say \"hi\" \\d\"}")
    ≡ some (text "{\"a\":\"say \\\"hi\\\" \\\\d\"}")
unfolding repair_json_strings repair_from move on_inside on_backslash closes_string closes
    after_brackets hex_escape
bare_quotes_escaped = refl

valid_json_left : repair_json_strings (text "{\"a\":[\"b\\n\",\"c\"]}") ≡ none
unfolding repair_json_strings repair_from move on_inside on_backslash closes_string closes
    after_brackets hex_escape
valid_json_left = refl

-- a valid array, whose string a number follows, does not come back unchanged
string_before_number : repair_json_strings (text "[\"b\",2]") ≡ some (text "[\"b\\\",2]")
unfolding repair_json_strings repair_from move on_inside on_backslash closes_string closes
    after_brackets hex_escape
string_before_number = refl

rate_limits_and_server_failures :
    map retryable_status (429 ∷ 503 ∷ 400 ∷ []) ≡ true ∷ true ∷ false ∷ []
unfolding retryable_status
rate_limits_and_server_failures = refl

-- a thousand tokens of text against four thousand billed
answer_cut_at_a_tag :
    content_dropped 3000 4000 (some 200)
      ∷ content_dropped 9000 4000 (some 200)
      ∷ content_dropped 3000 4000 none
      ∷ []
    ≡ true ∷ false ∷ false ∷ []
unfolding content_dropped
answer_cut_at_a_tag = refl

mostly_reasoning :
    reasoning_dominated 1000 (some 800) ∷ reasoning_dominated 0 (some 1) ∷ [] ≡ true ∷ false ∷ []
unfolding reasoning_dominated
mostly_reasoning = refl

quota_is_not_a_rate_limit :
    map (provider_quota_exhausted (text "x")) (text "daily quota reached" ∷ text "slow down" ∷ [])
    ≡ true ∷ false ∷ []
unfolding provider_quota_exhausted has_part starts_with text_eq
quota_is_not_a_rate_limit = refl
