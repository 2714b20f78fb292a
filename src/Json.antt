-- ===== src/Json.antt =====
-- ui/json: the interface that controls a workflow by JSON messages.
pub mod Dispatcher
pub mod Number
mod Examples
