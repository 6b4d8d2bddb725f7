-- ===== src/Net.antt =====
-- src/net/context: a connection of the event loop. `Connection` has its state, `Write` the write
-- queue, `Read` the read buffer, `Register` the registrations.
pub mod Connection
pub mod Write
pub mod Read
pub mod Register
pub mod Loop
pub mod Context
pub mod Timers
mod Tests
