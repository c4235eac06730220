-- ===== src/Request.antt =====
-- server/src/request.c and request.h: raw requests `[{type}{name:value,...}{payload}]` and what the
-- server reads of them.
pub mod Types
pub mod Params
pub mod Parse
pub mod Tests
