-- ===== src/Analyze.antt =====
-- keysas-core/src/keysas-analyze: the daemon that keysas-transit asks about files of certain types.
-- Category and Daemon model main.rs; the other children one analyzer each.
pub mod Findings
pub mod Category
pub mod Script
pub mod Daemon
pub mod Pe
pub mod Office
pub mod Iso
pub mod Archive
pub mod Pdf
pub mod Lnk
pub mod Verdicts
pub mod Keywords
pub mod Walk
pub mod Scan
pub mod Answers
pub mod Replies
mod Examples
