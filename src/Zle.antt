-- ===== src/Zle.antt =====
-- The line editor: Src/zle_utils.c, zle_move.c, zle_word.c and the buffer commands of zle_misc.c.
pub mod Scan
pub mod Text
pub mod Move
pub mod Bracket
pub mod Word
pub mod Case
pub mod Kill
pub mod Undo
pub mod Edit
pub mod KillWord
pub mod Quote
