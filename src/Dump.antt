-- ===== src/Dump.antt =====
-- Dump.cc: how a packet of a trace becomes a segment of a connection.
pub mod Options
mod OptionList
mod OptionBytes
mod OptionRounds
mod OptionParse
mod OptionMeaning
mod OptionFaults
pub mod Table
pub mod Handlers
pub mod Sending
pub mod Traces
pub mod Sojourn
pub mod SojournNumbers
mod SojournKept
mod KeyOrder
mod Entries
pub mod Events
mod Isolation
mod Tests
mod TraceTests
mod SojournTests
