-- ===== src/Controller.antt =====
-- pkg/controller/controller.go, event.go and worker.go: the handlers of the informer, the queue of
-- events, and the worker.
pub mod Queue
pub mod Handlers
pub mod Worker
pub mod Safety
pub mod Requests
pub mod Steps
pub mod Workers
pub mod Retries
pub mod Watched
pub mod Changes
pub mod Addresses
pub mod Start
pub mod Policy
pub mod GivesUp
pub mod Started
