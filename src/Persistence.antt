-- ===== src/Persistence.antt =====
-- tellus/src/persistence: event-sourced actors, what they store and how they recover.
pub mod SeqNo
pub mod Id
pub mod Store
pub mod InMemory
pub mod Versioned
pub mod Effect
pub mod EventSourced
pub mod Recovery
pub mod Settle
pub mod Life
pub mod Counter
pub mod Checks
