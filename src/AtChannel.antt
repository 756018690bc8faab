-- ===== src/AtChannel.antt =====
-- reference-ril/atchannel.c: the AT channel to the modem. Reader has the line reader, Lines the lines
-- of a stream, Writing what goes out, Commands the commands and the lines that answer them, and
-- ReaderLoop the thread that reads.
pub mod Reader
pub mod Lines
pub mod Writing
pub mod Commands
pub mod ReaderLoop
