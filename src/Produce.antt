-- ===== src/Produce.antt =====
-- The commands that write messages: cmd/produce.go, cmd/send.go and the records of cmd/ndjson.go
-- and cmd/message_schema.go. Lines are what bufio.Scanner gives of the input; reading the flags is
-- cobra's, and the rate limit only waits.
pub mod Records
pub mod Targets
pub mod Run
