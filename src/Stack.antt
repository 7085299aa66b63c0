-- ===== src/Stack.antt =====
-- src/stack/mod.rs
pub mod Smoltcp
pub mod State
pub mod DataPath
pub mod Listeners
pub mod Commands
pub mod Pending
pub mod Run
pub mod Live
pub mod Safety
pub mod Binding
pub mod Closing
pub mod Accepting
pub mod Opening
pub mod Passing
pub mod Rounds
pub mod Settling
pub mod Polling
pub mod Returning
pub mod Loop
pub mod Answering
pub mod TcpWrite
pub mod TcpRead
pub mod UdpWrite
pub mod UdpRead
pub mod Fifo
pub mod Device
pub mod Ports
pub mod Endings
pub mod Distinct
pub mod Toy
mod Tests
