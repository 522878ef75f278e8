-- ===== src/Client.antt =====
-- internal/commands/client: what the client sends, and the command that saves an archive.
pub mod Convert
pub mod Save
pub mod Saved
pub mod Restore
pub mod RestoreCmd
pub mod Combined
pub mod Restored
pub mod S3
pub mod Served
pub mod Joined
pub mod Uploaded
pub mod Sent
pub mod Delivered
pub mod Stored
pub mod RoundTrip
