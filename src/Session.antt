-- ===== src/Session.antt =====
-- cmd/dictad/session.go: the session that opens and closes the dictation modes, takes utterances,
-- and types their transcripts in order.
pub mod State
pub mod Lifecycle
pub mod Utterance
pub mod Worker
pub mod Run
pub mod Frame
pub mod Valid
pub mod Kept
pub mod Invariant
pub mod Order
pub mod Opening
pub mod Toggle
pub mod Drain
pub mod Progress
mod Tests
