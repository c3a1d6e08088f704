-- ===== src/Event.antt =====
-- modules/event: the queues of functions that the loop runs, and its timers.
pub mod RunQueue
pub mod Timers
