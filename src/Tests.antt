-- ===== src/Tests.antt =====
-- A concrete instance of every parameter, and the theorems at concrete inputs.
mod Containers
mod Instances
mod Collections
mod Commands
mod Fields
mod Patterns
mod Messages
mod Searches
mod Codec
mod Hooks
mod Files
