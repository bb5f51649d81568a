-- ===== src/Ipc.antt =====
-- mcts-core/src/ipc_core.rs: the shared-memory side of inference.
pub mod SpinLock
pub mod Ring
pub mod Arena
