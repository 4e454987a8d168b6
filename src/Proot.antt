-- ===== src/Proot.antt =====
-- scripts/stage-proot.py: the archives of the packages, and the staging of the native programs.
pub mod Archive
pub mod Layout
pub mod Rename
pub mod Stage
pub mod Described
pub mod Inputs
pub mod Promoted
pub mod Verified
