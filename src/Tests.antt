-- ===== src/Tests.antt =====
-- Theorems applied to concrete inputs, a module per part of the program.
mod Hex
mod Base64
mod Containers
mod Strings
mod Streams
mod Urls
mod Routes
mod Addresses
mod Chunks
mod Http
mod Shared
mod Traces
mod Metrics
mod Patterns
