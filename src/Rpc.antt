-- ===== src/Rpc.antt =====
-- src/app/rpc/RpcServer.cpp: the RPC server. `Types` has its enumerations and the parser's state,
-- `Wire` the byte encodings, `Parser` the incremental request parser, `Server` the connection handler.
pub mod Types
pub mod Wire
pub mod Parser
pub mod Frame
pub mod Server
pub mod Service
pub mod Endpoint
pub mod Session
mod Tests
