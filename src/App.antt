-- ===== src/App.antt =====
-- artifacts/agentmail-ui/src/App.tsx: the state that the root component keeps beside its hooks.
pub mod Heads
pub mod Toasts
pub mod Agents
pub mod Screen
pub mod Invalidation
