-- ===== src/F3.antt =====
-- f3participant: the participation of the miners in F3, fast finality.
pub mod Multi
pub mod Participant
