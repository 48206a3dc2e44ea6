-- ===== src/Asking/Replies.antt =====
-- tellus/src/actor_ref.rs, `ask`: what becomes of the one reply, however the responder, the asker and
-- the clock follow on one another.
use tellus.Oneshot.{Oneshot}
