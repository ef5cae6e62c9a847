-- ===== src/Nodes.antt =====
-- The nodes: src/nodes/can_node.rs, src/nodes/node_manager.rs with its commands, and the heartbeat
-- thread of src/nodes/mod.rs.
pub mod CanNode
pub mod Manager
pub mod Values
pub mod Command
pub mod Heartbeat
