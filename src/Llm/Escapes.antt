-- ===== src/Llm/Escapes.antt =====
-- What the loop of `repair_json_strings` of backend/src/llm.rs writes.
use doc_craft_agent.Prelude.{
  ℕ, Bool, true, false, ◌&&◌, ◌||◌, not, is_ascii_hexdigit, Option, none, some, [], ◌∷◌, leb, ◌==◌,
  if◌then◌else◌, Text, any,
}
use doc_craft_agent.Llm.{Mode, outside, inside, escaped, escape_letters, quote, backslash}

abbrev pub is_letter : ℕ → Bool
is_letter c = any (λ d. d == c) escape_letters

-- four hexadecimal digits stand in front
abbrev pub is_four_hex : Text → Bool
is_four_hex (a ∷ b ∷ c ∷ d ∷ s) =
    is_ascii_hexdigit a && is_ascii_hexdigit b && is_ascii_hexdigit c && is_ascii_hexdigit d
is_four_hex [] = false
is_four_hex (a ∷ []) = false
is_four_hex (a ∷ b ∷ []) = false
is_four_hex (a ∷ b ∷ c ∷ []) = false

-- what stands behind a backslash: a letter that JSON knows, and four digits behind a `u`
abbrev pub is_escape : ℕ → Text → Bool
is_escape c rest = is_letter c && (not (c == b'u') || is_four_hex rest)

-- From a mode on, no control character stands inside a string, and each backslash inside one begins
-- an escape that JSON knows.
unfoldable pub is_sound : Mode → Text → Bool
is_sound mode [] = true
is_sound outside (c ∷ rest) = is_sound (if c == quote then inside else outside) rest
is_sound inside (c ∷ rest) =
    leb 0x20 c
    && is_sound (if c == quote then outside else if c == backslash then escaped else inside) rest
is_sound escaped (c ∷ rest) = is_escape c rest && is_sound inside rest

-- between the two characters of an escape, the second one goes on with it
abbrev is_ready : Mode → Text → Bool
is_ready outside s = true
is_ready inside s = true
is_ready escaped [] = false
is_ready escaped (c ∷ rest) = is_escape c rest

-- A character of a string that stands for itself.
abbrev is_plain : ℕ → Bool
is_plain c = leb 0x20 c && not (c == quote) && not (c == backslash)

abbrev pub or_text : Option Text → Text → Text
or_text none s = s
or_text (some t) s = t
