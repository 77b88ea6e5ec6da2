-- ===== src/YoutubeSearch.antt =====
-- c/YoutubeSearch/ytsearch.c: a search of videos by the links of a result page.
pub mod Memory
pub mod Request
pub mod Page
pub mod Search
pub mod Ownership
pub mod Selection
pub mod Address
pub mod Outcome
mod Examples
