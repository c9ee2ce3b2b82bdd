-- ===== src/Errors/Logs.antt =====
-- redfish_event/src/error_messages.cpp: the functions for the messages.
pub mod Sending
pub mod Actions
pub mod Properties
pub mod Resources
pub mod Services
pub mod Calls
pub mod Sent
