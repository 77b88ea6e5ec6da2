-- ===== src/GmailCalendar.antt =====
-- The Google Calendar sample, c/gmail-calendar.
pub mod Calendar
pub mod Files
pub mod Http
pub mod Json
pub mod Loopback
pub mod Main
pub mod Oauth
pub mod Platform
pub mod Util
