-- ===== src/Queue.antt =====
-- internal/queue: the connection, the producer, and the exchanges and queues that are declared at the
-- start.
pub mod Connection
pub mod Producer
pub mod Topology
