-- ===== src/Net.antt =====
-- The network library: net/.
pub mod Acceptor
pub mod Buffer
pub mod Channel
pub mod Connection
pub mod Connector
pub mod EPollPoller
pub mod EventLoop
pub mod ReadBuffers
pub mod TcpClient
pub mod TcpServer
pub mod Wakeup
pub mod WriteBuffers
mod Tests
