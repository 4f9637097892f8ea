-- ===== src/Dash.antt =====
-- dash/: the segment server, the player that asks it for segments, and the rate adaptation that
-- chooses what to ask for.
pub mod Request
pub mod Server
pub mod Player
pub mod Client
pub mod Algorithm
pub mod Session
pub mod Adaptation
