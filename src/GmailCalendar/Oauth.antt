-- ===== src/GmailCalendar/Oauth.antt =====
-- c/gmail-calendar/src/oauth.c: the configuration, the token requests and the authorization flow.
pub mod Config
pub mod Flow
pub mod Invariant
pub mod Resources
pub mod Session
mod Examples
