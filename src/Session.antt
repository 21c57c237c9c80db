-- ===== src/Session.antt =====
-- lib/src/session: the events of a session.
pub mod Events
