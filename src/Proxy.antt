-- ===== src/Proxy.antt =====
-- scry-proxy/src/proxy: what the proxy keeps for its clients and its backend connections.
pub mod Connection
pub mod ClientRegistry
pub mod Server
pub mod Transaction
pub mod TcpPool
pub mod PoolManager
pub mod EventBatcher
pub mod ModeEnforcer
pub mod WaitQueue
pub mod Lru
pub mod StatementCache
pub mod ConnectionState
