-- ===== src/Examples.antt =====
-- Runs of the program at concrete inputs, which show that the hypotheses of the theorems can hold.
mod Samples
mod Windows
mod Uploads
mod Transfers
mod Files
mod Lists
mod Network
mod Startup
mod Timers
mod Programs
mod Servers
mod Outputs
mod Packets
