-- ===== src/GoStd.antt =====
-- The functions of Go's standard library that the program calls on strings.
pub mod Strings
pub mod Words
pub mod CleanPath
pub mod Query
pub mod Encoding
pub mod FilePath
