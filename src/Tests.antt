-- ===== src/Tests.antt =====
-- Runs on concrete inputs, and the theorems at inputs that meet their hypotheses.
mod Sse
mod Stream
mod App
mod Client
mod Preview
mod Flash
mod Queries
mod CustomFetch
mod Components
mod Sandbox
mod Resume
mod Received
mod Invalidation
mod Overlap
mod Scroll
