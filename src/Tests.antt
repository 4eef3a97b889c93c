-- ===== src/Tests.antt =====
-- The theorems at concrete inputs, and runs of the definitions.
mod Samples
mod Store
mod Process
mod App
mod Execute
mod Http
mod Config
mod Resolve
mod Worker
mod Runtime
mod Lock
mod Lifecycle
mod Tasks
mod Service
