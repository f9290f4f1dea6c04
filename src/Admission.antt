-- ===== src/Admission.antt =====
-- src/admission.rs and src/proxyproto.rs: what the server says and asks about the source of a
-- connection.
pub mod Cookies
pub mod CookieLaws
pub mod ProxyHeader
pub mod HeaderLaws
mod Tests
