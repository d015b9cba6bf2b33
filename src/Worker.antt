-- ===== src/Worker.antt =====
-- spur_api/worker: the chunked run of a model (runner.py), the job around it (tasks.py), and the worker
-- that takes the jobs off the queue (settings.py).
pub mod Runner
pub mod Tasks
pub mod Queue
