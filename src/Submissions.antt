-- ===== src/Submissions.antt =====
-- Submissions of operations: src/ctxfs/models.py and the planning part of `submit` in
-- src/ctxfs/store.py.
pub mod Tests
pub mod Operations
pub mod Visits
pub mod Ordering
pub mod Fuel
pub mod Preflight
