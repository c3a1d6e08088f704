-- ===== src/Flow.antt =====
-- modules/flow: the hierarchical state machine, the actions and their executor.
pub mod Action
pub mod Executor
pub mod StateMachine
