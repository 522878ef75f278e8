-- ===== src/Witnesses.antt =====
-- The properties on concrete inputs.
pub mod World
pub mod Server
pub mod Refusals
pub mod Texts
pub mod Transfer
pub mod Auth
pub mod Pool
pub mod Up
pub mod Client
pub mod Archive
pub mod Tokens
pub mod Restore
pub mod Delivered
pub mod Table
pub mod Rpc
pub mod Saving
pub mod RoundTrip
pub mod Bucket
pub mod Sent
