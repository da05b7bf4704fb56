-- ===== src/Tests.antt =====
-- The theorems at concrete inputs.
mod World
mod Serving
mod Wire
mod Receiving
mod Waiting
mod Registering
mod Commanding
mod Configuring
mod Discovering
mod Replaying
mod Sockets
mod Driving
mod Acknowledging
mod Closing
mod Delivering
mod Meeting
