-- ===== src/Shell.antt =====
-- cmd/pipeline.go and cmd/shell.go: the interactive shell's text handling, stages and blocks.
pub mod Split
pub mod Words
pub mod Stage
pub mod Framing
pub mod Alias
