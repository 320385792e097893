-- ===== src/Parser/Tests.antt =====
-- A small file in chunks (backend/src/parser.rs), and the theorem at it.
use doc_craft_agent.Prelude.{◌≡◌, refl, [], ◌∷◌, text, len}
use doc_craft_agent.Prelude.Cuts.{fit, newlines, ends_line}
use doc_craft_agent.Parser.{chunk_text, chunks_from, chunk_at, symbols_in, chunk}
use doc_craft_agent.Parser.Chunks.{Chunked, chunk_text-Chunked}

lines_of_a_file :
    chunk_text (0 ∷ []) ((2, text "b") ∷ []) (text "a\nb\n")
    ≡ record { start = 1; end = 2; symbols = text "b" ∷ []; content = text "a\nb\n" } ∷ []
unfolding chunk_text chunks_from chunk_at fit newlines ends_line symbols_in chunk len
lines_of_a_file = refl

chunk_text-Chunked_example :
    Chunked
      ((2, text "b") ∷ [])
      0
      1
      (text "a\nb\n")
      (chunk_text (0 ∷ []) ((2, text "b") ∷ []) (text "a\nb\n"))
chunk_text-Chunked_example = chunk_text-Chunked (0 ∷ []) ((2, text "b") ∷ []) (text "a\nb\n")
