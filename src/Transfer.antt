-- ===== src/Transfer.antt =====
-- pkg/uploader and pkg/downloader: the parts of a file, in parallel.
pub mod Upload
pub mod Numbered
pub mod Whole
pub mod Pool
pub mod Download
