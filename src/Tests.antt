-- ===== src/Tests.antt =====
-- Concrete worlds, and the properties at concrete inputs.
mod Informers
mod Client
mod World
mod Queue
mod Race
mod Lister
mod Concurrent
mod Guarded
mod Uniq
mod Requests
mod Choices
mod Updates
mod Errors
mod Times
mod Startup
mod Failing
mod Notifications
