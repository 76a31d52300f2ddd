-- ===== src/Tests.antt =====
-- Tests on concrete frames and drivers.
mod Example
mod Line
mod Receive
mod Queues
mod Handles
mod Commands
mod Transmit
mod Safety
mod Config
mod Session
mod System
mod Calls
mod Life
