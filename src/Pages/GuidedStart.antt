-- ===== src/Pages/GuidedStart.antt =====
-- web/src/pages/GuidedStart.tsx: the search of an untyped answer for a word about each stage.
pub mod Values
pub mod Search
pub mod Page
pub mod Depth
pub mod Cards
