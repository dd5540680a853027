-- ===== src/Math.antt =====
-- Arithmetic evaluation, Src/math.c.
pub mod Token
pub mod Word
pub mod State
pub mod Lex
pub mod Op
pub mod Parse
pub mod Tree
