-- ===== src/Tests.antt =====
-- Runs of the definitions, and the theorems at concrete inputs.
mod Concurrent
mod Consumers
mod Once
mod Producers
mod Queue
mod Readers
mod Receivers
mod Shared
mod Texts
mod Values
mod Workers
