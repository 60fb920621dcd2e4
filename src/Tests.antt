-- ===== src/Tests.antt =====
-- Concrete runs, on the table in memory.
mod Data
mod Worker
mod Service
mod StateMachine
mod Http
mod Endpoints
mod Cluster
mod Reaper
mod Schedule
mod Bodies
mod Progress
mod Pages
mod Lifespan
mod Retries
mod System
mod TaskService
mod Migrations
mod App
mod Gather
mod Serve
