-- ===== src/Main.antt =====
-- configloader/main.c.
pub mod Merging
pub mod Program
pub mod Opening
pub mod Closing
pub mod Verdicts
pub mod Run
pub mod Whole
pub mod Starting
pub mod Sources
pub mod Succeeding
pub mod Load
pub mod Correct
pub mod Success
