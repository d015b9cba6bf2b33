-- ===== src/Tests.antt =====
-- Runs of the model on small inputs, and the theorems applied to them.
mod Samples
mod Projects
mod Requests
mod Worker
mod Ticks
mod Results
mod Api
mod Submissions
mod Queue
mod Migrations
mod Access
mod Store
