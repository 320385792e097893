-- ===== src/Source/Tests.antt =====
-- Files that the reading passes over (backend/src/source.rs).
use doc_craft_agent.Prelude.{◌≡◌, refl, some, none, Text, text, starts_with, contains, text_eq}
use doc_craft_agent.Source.{reading_exclusion, has_part, get_prefix}

-- for lower-case names without a directory
abbrev same : Text → Text
same t = t

cargo_lock : reading_exclusion same same (text "cargo.lock") (text "") ≡ some (text "lockfile")
unfolding reading_exclusion contains text_eq
cargo_lock = refl

generated_client :
    reading_exclusion same same (text "client.rs") (text "// @generated by a tool")
    ≡ some (text "generated")
unfolding reading_exclusion contains text_eq starts_with has_part get_prefix
generated_client = refl

plain_file : reading_exclusion same same (text "main.rs") (text "fn main() {}") ≡ none
unfolding reading_exclusion contains text_eq starts_with has_part get_prefix
plain_file = refl
