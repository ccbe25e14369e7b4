-- ===== src/Worker.antt =====
-- apps/worker/src: the jobs of the worker and their dispatcher.
pub mod CommentReply
pub mod Event
pub mod Dispatch
pub mod Tests
