-- ===== src/Stage.antt =====
-- The stage of the packages: its state machine, the phases of a live run, the artifacts and archives.
pub mod Results
pub mod States
pub mod Live
pub mod Integrity
pub mod Archive
pub mod Tar
pub mod Gzip
pub mod Transcript
pub mod Peers
