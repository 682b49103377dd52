-- ===== src/Tests.antt =====
-- Small inputs for the theorems: a scripted database, a scripted cluster, and a script for each part.
mod World
mod Db
mod Store
mod Atomic
mod Loading
mod Batch
mod Cluster
mod Web
mod Status
mod Serving
mod Cache
mod Session
mod Node
mod Hammer
mod Commands
