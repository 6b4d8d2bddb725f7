-- ===== src/Resp.antt =====
-- src/app/redis/redis.h: the RESP protocol. `Types` has the values, `Number` the decimal numbers,
-- `Parser` the reply parser, `Command` the request builder, `Reply` the protocol's own description.
pub mod Types
pub mod Reply
pub mod Format
pub mod Number
pub mod Parser
pub mod Command
mod Tests
