-- ===== src/Zmq.antt =====
-- pkg/server/plugin/zmq/broker.go: the queue of a plugin's workers.
pub mod Queue
pub mod Events
pub mod Channels
