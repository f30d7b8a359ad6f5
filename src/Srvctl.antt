-- ===== src/Srvctl.antt =====
-- srvctl/src/srvctl.c: the command line, what the commands do to the files of a service, and what
-- --status prints.
pub mod Options
pub mod Accepted
pub mod Files
pub mod Action
pub mod Links
pub mod Pipes
pub mod Named
pub mod Working
pub mod Effects
pub mod Refinement
pub mod Status
pub mod Report
pub mod Walks
pub mod KillAll
pub mod Scanned
pub mod Asked
pub mod Reached
pub mod Main
mod Examples
mod WalkExamples
