-- ===== src/Source.antt =====
-- backend/internal/source: the requests to source sites and the download of torrents.
pub mod Address
pub mod Dial
pub mod Download
pub mod Bounded
pub mod Chosen
pub mod Pending
pub mod Foreign
pub mod Scenarios
