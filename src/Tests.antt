-- ===== src/Tests.antt =====
-- Concrete inputs for the theorems: a small world, and each theorem at an input that meets its
-- hypotheses.
mod World
mod Circuit
mod Pods
mod Traffic
mod Application
mod Sockets
mod Waiting
mod Lifecycle
mod Startup
mod Creation
