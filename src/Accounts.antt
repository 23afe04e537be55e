-- ===== src/Accounts.antt =====
-- The life of an account across app/routers/auth.py, app/routers/admin.py and app/bootstrap.py: an
-- active employee has a roster, and a pending or rejected one has none.
pub mod Soundness
pub mod Calls
