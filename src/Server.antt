-- ===== src/Server.antt =====
-- learning/server/app.py: the HTTP server of the learning application.
pub mod Text
pub mod Thread
pub mod Request
pub mod Origin
pub mod Payload
pub mod Views
pub mod Steps
pub mod Checks
pub mod Interview
pub mod Static
pub mod Reads
pub mod Router
pub mod Safety
pub mod Servable
pub mod Answers
pub mod Posts
pub mod Answered
pub mod Schedule
pub mod Liveness
pub mod Effects
pub mod ReadOnly
pub mod Refusals
pub mod Unchanged
pub mod Trust
pub mod Shutdown
pub mod Contained
