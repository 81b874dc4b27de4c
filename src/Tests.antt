-- ===== src/Tests.antt =====
-- The theorems at concrete inputs, and runs of the model's functions.
mod Samples
mod Catalog
mod Controller
mod Capacity
mod Operator
mod Storage
mod Tokens
mod Gateway
mod Api
mod Client
mod Setup
mod Assembly
mod Knowing
mod PodExec
