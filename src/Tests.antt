-- ===== src/Tests.antt =====
-- Runs of the definitions, and each theorem applied to a concrete case.
mod Ffmpeg
mod Archiver
mod Blob
mod Broadcast
mod Server
mod Storage
mod Split
mod Transcribe
mod Paging
mod Since
mod Requests
mod Graphql
mod Processing
mod Handlers
mod CommandLine
mod Whisper
