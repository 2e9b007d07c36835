-- ===== src/Tests.antt =====
-- Concrete runs of the three programs.
mod Simulator
mod Progress
mod Curriculum
mod Loading
mod Server
mod Checks
mod Client
mod Toolchain
