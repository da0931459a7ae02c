-- ===== src/Sse/Buffer.antt =====
-- The reader's buffer in `openConversationStream`: each decoded chunk is appended, CRLF is
-- replaced, and every text in front of a blank line is cut off.
use agentchat_take_home.Base.{
  ℕ, zero, suc, Text, List, [], ◌∷◌, ◌++◌, Option, none, some, take, drop, length,
}
use agentchat_take_home.Sse.Lines.{normalize, index_of_blank}
pub mod Cut
pub mod Blocks
pub mod Chunks

-- `buffer.slice(0, idx)` and `buffer.slice(idx + 2)` at the first blank line.
unfoldable pub cut : Text → Option (Text × Text)
cut buffer = elim (index_of_blank buffer) [
  | none ↦ none
  | some idx ↦ some (take idx buffer, drop (suc (suc idx)) buffer)
]

-- What the inner loop hands to `parseFrame`, and the buffer that it leaves.
pub record Drained : Type 0 where
  pub raws : List Text
  pub buffer : Text

abbrev pub with_raw : Text → Drained → Drained
with_raw raw d = record d { raws = raw ∷ d.raws }

-- The inner loop, on fuel.
unfoldable pub drain_on : ℕ → Text → Drained
drain_on zero buffer = record { raws = []; buffer = buffer }
drain_on (suc fuel) buffer = elim (cut buffer) [
  | none ↦ record { raws = []; buffer = buffer }
  | some (raw, rest) ↦ with_raw raw (drain_on fuel rest)
]

abbrev pub drain : Text → Drained
drain buffer = drain_on (length buffer) buffer

-- One round of the outer loop.
unfoldable pub feed : Drained → Text → Drained
feed d chunk =
    let next = drain (normalize (d.buffer ++ chunk)) in
    record { raws = d.raws ++ next.raws; buffer = next.buffer }

abbrev pub start : Drained
start = record { raws = []; buffer = [] }

-- All chunks of a stream, in the order in which they arrive.
unfoldable pub feed_all : Drained → List Text → Drained
feed_all d [] = d
feed_all d (chunk ∷ chunks) = feed_all (feed d chunk) chunks
