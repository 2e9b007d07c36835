-- ===== src/Checks.antt =====
-- learning/checks: the checks that lessons name.
pub mod Pytest
