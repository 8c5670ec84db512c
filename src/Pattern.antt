-- ===== src/Pattern.antt =====
-- src/pattern/pattern.cpp: patterns of literals, choices and repetitions.
pub mod Parse
pub mod Match
