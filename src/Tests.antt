-- ===== src/Tests.antt =====
-- Tests, and each theorem at a concrete input.
mod Branches
mod Cameras
mod Decoding
mod Demux
mod Graphs
mod Pipelines
mod Formats
mod Seeks
mod Streams
mod Readers
mod Times
