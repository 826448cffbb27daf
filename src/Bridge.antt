-- ===== src/Bridge.antt =====
-- The stratum bridge (bridge/src): jobs, submissions and the admission of connections.
pub mod Jobs
pub mod Duplicates
pub mod Nonce
pub mod Submit
pub mod AntiAbuse
