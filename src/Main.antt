-- ===== src/Main.antt =====
-- modules/main: the tree of modules and its life cycle.
pub mod Module
