-- ===== src/Llm.antt =====
-- `repair_json_strings` of backend/src/llm.rs: what a model breaks inside the strings of a JSON
-- text is escaped.
pub mod Rate
pub mod Escapes
pub mod Answers
mod Tests
use doc_craft_agent.Prelude.{
  ℕ, ◌+◌, ◌-◌, ◌/◌, ◌%◌, Bool, true, false, ◌&&◌, ◌||◌, not, Option, none, some, List, [], ◌∷◌,
  ◌++◌, leb, ltb, ◌==◌, if◌then◌else◌, Text, text, filter, is_whitespace, is_ascii_digit,
  is_ascii_hexdigit, all, take, length, len, any,
}

abbrev pub quote : ℕ
quote = 34

abbrev pub backslash : ℕ
backslash = 92

abbrev one_of : Text → ℕ → Bool
one_of set c = any (λ d. d == c) set

-- the `while` over closing brackets, and what may stand behind them
unfoldable pub after_brackets : Text → Bool
after_brackets [] = true
after_brackets (c ∷ rest) = if one_of (text "}]") c then after_brackets rest else c == b','

abbrev starts_value : Text → Bool
starts_value [] = false
starts_value (c ∷ rest) = one_of (text "{[-tfn") c || c == quote || is_ascii_digit c

abbrev starts_item : Text → Bool
starts_item [] = false
starts_item (c ∷ rest) = one_of (text "{[") c || c == quote

-- what follows a quote, without its blanks
unfoldable pub closes : Text → Bool
unfolding after_brackets is_ascii_digit
closes [] = true
closes (c ∷ rest) =
    if c == b':'
    then starts_value rest
    else if c == b','
    then starts_item rest
    else if one_of (text "}]") c
    then after_brackets rest
    else false

unfoldable pub closes_string : Text → Bool
unfolding closes is_whitespace
closes_string rest = closes (filter (λ c. not (is_whitespace c)) rest)

-- from the `u` of an escape
unfoldable pub hex_escape : Text → Bool
unfolding is_ascii_hexdigit
hex_escape [] = false
hex_escape (c ∷ rest) = c == b'u' && length (filter is_ascii_hexdigit (take 4 rest)) == 4

-- where the loop stands; `escaped` is between the two characters that a valid escape takes at once
pub data Mode : Type 0 where
  outside inside escaped : Mode

abbrev pub escape_letters : Text
escape_letters = quote ∷ backslash ∷ text "/bfnrtu"

abbrev pub hex_digit : ℕ → ℕ
hex_digit d = if ltb d 10 then b'0' + d else b'a' + (d - 10)

-- the character, its `"\\u{:04x}"`, which lies below 0x20
unfoldable pub code_point : ℕ → Text
code_point c = backslash ∷ b'u' ∷ b'0' ∷ b'0' ∷ hex_digit (c / 16) ∷ hex_digit (c % 16) ∷ []

-- what a character becomes, if that is a change, and where the loop stands behind it
pub record Move : Type 0 where
  pub out : Text
  pub changed : Bool
  pub next : Mode

abbrev pub keep : ℕ → Mode → Move
keep c next = record { out = c ∷ []; changed = false; next = next }

abbrev pub write : Text → Move
write out = record { out = out; changed = true; next = inside }

-- a backslash inside a string, before `rest`
unfoldable pub on_backslash : Text → Move
unfolding hex_escape
on_backslash [] = write (backslash ∷ backslash ∷ [])
on_backslash (d ∷ rest) =
    if d == b'u' && not (hex_escape (d ∷ rest))
    then write (backslash ∷ backslash ∷ [])
    else if one_of escape_letters d
    then keep backslash escaped
    else write (backslash ∷ backslash ∷ [])

unfoldable pub on_inside : ℕ → Text → Move
unfolding on_backslash closes_string code_point
on_inside c rest =
    if c == backslash
    then on_backslash rest
    else if c == quote
    then (if closes_string rest then keep c outside else write (backslash ∷ quote ∷ []))
    else if c == 10
    then write (backslash ∷ b'n' ∷ [])
    else if c == 13
    then write (backslash ∷ b'r' ∷ [])
    else if c == 9
    then write (backslash ∷ b't' ∷ [])
    else if ltb c 0x20
    then write (code_point c)
    else keep c inside

unfoldable pub move : Mode → ℕ → Text → Move
unfolding on_inside
move outside c rest = keep c (if c == quote then inside else outside)
move inside c rest = on_inside c rest
move escaped c rest = keep c inside

-- the loop: the text that it writes, and whether it changed something
unfoldable pub repair_from : Mode → Text → Text × Bool
unfolding move
repair_from mode [] = ([], false)
repair_from mode (c ∷ rest) =
    let m = move mode c rest in
    let (out, changed) = repair_from m.next rest in (m.out ++ out, m.changed || changed)

unfoldable pub repair_json_strings : Text → Option Text
unfolding repair_from
repair_json_strings s =
    let (out, changed) = repair_from outside s in if changed then some out else none
