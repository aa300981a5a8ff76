-- ===== src/Model.antt =====
-- src/model.rs: the durable project state of a client. The children are its data, the two
-- allocators, the operations, the validation and the repair of a state that was loaded.
pub mod Ids
pub mod Random
pub mod Hex
pub mod Data
pub mod State
pub mod Sessions
pub mod Validate
pub mod Valid
pub mod Messages
pub mod Steps
pub mod Repair
pub mod Identities
pub mod Table
pub mod Commands
pub mod Tests
