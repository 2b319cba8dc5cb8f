-- ===== src/Obsv.antt =====
-- The observation substrate: obsv/.
pub mod Journal
