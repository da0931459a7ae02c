-- ===== src/Sse.antt =====
-- artifacts/agentmail-ui/src/lib/sse.ts: the parser of one frame, the reader's buffer, and
-- `openConversationStream`. `Number`, `JSON.parse`, `encodeURIComponent`, `fetch` and the decoder
-- of bytes are parameters.
pub mod Lines
pub mod Frame
pub mod Buffer
pub mod Open
