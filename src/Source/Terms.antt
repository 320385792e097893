-- ===== src/Source/Terms.antt =====
-- `search_terms` of backend/src/source.rs. `char::is_alphanumeric` and `str::to_lowercase` are
-- parameters.
use doc_craft_agent.Prelude.{
  ℕ, Bool, true, false, not, ◌&&◌, ◌||◌, List, [], ◌∷◌, map, ltb, ◌==◌, if◌then◌else◌, take, Text,
  text, len, contains,
}

abbrev underscore : ℕ
underscore = 0x5F

-- words that every path has
abbrev pub common_words : List Text
common_words =
    text "src"
    ∷ text "js"
    ∷ text "jsx"
    ∷ text "ts"
    ∷ text "tsx"
    ∷ text "test"
    ∷ text "tests"
    ∷ text "backend"
    ∷ text "frontend"
    ∷ text "users"
    ∷ text "workspace"
    ∷ []

-- a character that belongs to the word behind it, or ends the word before
abbrev add_char : Bool → ℕ → List Text → List Text
add_char true c [] = (c ∷ []) ∷ []
add_char true c (word ∷ words) = (c ∷ word) ∷ words
add_char false c words = [] ∷ words

-- `split` at what is no part of a word
unfoldable pub split_words : (ℕ → Bool) → Text → List Text
split_words is_alphanumeric [] = [] ∷ []
split_words is_alphanumeric (c ∷ s) =
    add_char (is_alphanumeric c || c == underscore) c (split_words is_alphanumeric s)

abbrev is_term : List Text → Text → Bool
is_term seen s = ltb 1 (len s) && not (contains common_words s) && not (contains seen s)

-- the filter, which keeps each term once
unfoldable pub keep_terms : List Text → List Text → List Text
unfolding contains
keep_terms seen [] = []
keep_terms seen (s ∷ ss) =
    let rest = keep_terms (if is_term seen s then s ∷ seen else seen) ss in
    if is_term seen s then s ∷ rest else rest

unfoldable pub search_terms : (ℕ → Bool) → (Text → Text) → Text → List Text
unfolding split_words keep_terms
search_terms is_alphanumeric lowercase query =
    take 60 (keep_terms [] (map lowercase (split_words is_alphanumeric query)))
