-- ===== src/Lib.antt =====
-- A verification library for DocCraft Agent, a local service (backend/src, Rust) that reads source
-- trees with a language model and writes a document about them.
--
-- Parts and files. Each module is named for the Rust file that it models, and each function for
-- the function of that file.
-- - Model: the serialized shapes of backend/src/model.rs.
-- - Budget: backend/src/budget.rs, the token gate before a request and the packing that mirrors
--   it. A request enters by the length of its JSON.
-- - Context: the counters of a run in backend/src/context.rs: reservations, calibration, deadline.
--   It calls Budget for the density and the packing.
-- - Understanding: the arithmetic of the reading tree in backend/src/understanding.rs, and the
--   cutting of long passages; Tree, the leaves under some nodes.
-- - Findings: the resolution of cited evidence in backend/src/findings.rs; Briefs, the check of a
--   reading, which calls Findings and Source; Packing, the passages that fit a request.
-- - Source: the class of a file in backend/src/source.rs; Tasks, the check of what a task may read
--   and write; Terms, the terms of a search.
-- - Llm: the repair of JSON strings in backend/src/llm.rs, with the loop as a machine of three
--   modes; Rate, the rate limit, as rounds of all tasks in the order in which they take the lock.
-- - Parser: the chunks of a file in backend/src/parser.rs.
-- - Graph: the order of the chunks in backend/src/graph.rs.
-- - Editorial: code in Markdown and excerpts in backend/src/editorial.rs.
-- - Markdown: fences, diagrams and subsections in backend/src/markdown.rs, which call Editorial;
--   Splice, the repair of a draft; Headings, the headings of a section.
-- - SectionOutput: backend/src/section_output.rs, a section written in parts. It calls Editorial.
-- - Planning: backend/src/planning.rs: Levels (how wide a document is planned), Shares (limits
--   divided over chapters), Outlines (the check of a plan, which calls Findings), Branches (what the
--   planner is shown), Chapters (the division of a large source), Batches (the requests that a
--   chapter is planned in), Generated (the names in a plan that the model returns).
-- - Purpose: which section explains which leaves of the reading tree, in backend/src/purpose.rs. It
--   calls Understanding.Tree for the leaves and Source.Terms for the terms of a search.
-- - Runner: backend/src/runner.rs: the stretches of the coherence review; Lifecycle, a run from
--   its registration to its end, with `request_cancel` of backend/src/api.rs, `stop_all` of
--   backend/src/context.rs and the commit boundary of backend/src/publish.rs, as steps on the
--   registry, the rows of `runs` and the terminal journals; Journal, the budget that a run takes
--   from one attempt to the next.
-- - Composition: the edit of a plan and its approval in backend/src/composition.rs, as steps on the
--   checkpoints of one run. An edit calls Planning.Outlines.
-- - Api: the decisions of backend/src/api.rs; Resume, a run that goes on, which calls Config and
--   Source.Tasks.
-- - Config: the check of the settings in backend/src/config.rs, and the masking of secrets.
-- - Prelude: shared names, Boolean tests, lists, text, machine words, results.
--
-- Conventions. Numbers are native naturals; `u32` and `u64` operations that saturate or wrap are
-- written out in Prelude/Words, with `usize` of 64 bits, and sums of lengths of data in memory are
-- plain. A Rust `str` is the list of its code points, `len` counts its bytes of UTF-8. `f64` is a
-- record of operations, Prelude/Floats. An `anyhow` error is a constructor for each message. Loops
-- that are not on a list take fuel: `reduction_work` the nodes, which each round lowers;
-- `coherence_windows` the sections, since each stretch starts later than the one before;
-- `chapter_shares` the sum of the shares, which each round lowers by one; `segments` and
-- `chunk_text` the characters that are left, of which each piece takes one at least; `visit` the
-- nodes, of which each round takes one off; `write` the parts that a draft lacks of 24, and one;
-- `chunks` the branches, of which each run takes one at least; `leaves_under` the stack and the
-- children of the nodes that are not seen, which each round lowers by one at least.
--
-- Whether a write to disk or database goes through is an argument of the step that makes it.
--
-- Not modelled: SQL, HTTP, files, encryption, tree-sitter and the prompts. The order in which a
-- `HashMap` is walked, SHA-256, Unicode lowercase, regular expressions, file extensions, the URL
-- parser and the file system are parameters of what uses them.
pub mod Prelude
pub mod Model
pub mod Budget
pub mod Context
pub mod Understanding
pub mod Runner
pub mod Findings
pub mod Planning
pub mod Config
pub mod Source
pub mod Llm
pub mod Parser
pub mod Editorial
pub mod SectionOutput
pub mod Graph
pub mod Composition
pub mod Api
pub mod Markdown
pub mod Purpose
