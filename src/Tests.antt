-- ===== src/Tests.antt =====
-- Runs of the definitions on small inputs.
mod Codec
mod Files
mod Queue
mod Store
mod Tables
mod Compaction
mod Loss
mod Filters
mod Restart
mod Edits
mod Meetings
