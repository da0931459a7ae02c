-- ===== src/Types.antt =====
-- artifacts/agentmail-ui/src/lib/types.ts: the wire shapes, the frames of the stream, the shapes
-- that the components render, and the adapters between them.
pub mod Json
pub mod Wire
pub mod Event
pub mod Payload
pub mod Ui
pub mod Adapters
