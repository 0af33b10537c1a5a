-- ===== src/Examples.antt =====
-- The theorems at work on concrete inputs, and runs of the programs.
mod Chat
mod Room
mod Codec
mod Calls
mod Promises
mod Life
mod Servers
mod Tests
mod Web
mod Sums
