-- ===== src/Tests.antt =====
-- Concrete data, and the theorems applied to it.
pub mod Data
pub mod Rows
pub mod Requests
pub mod Calls
pub mod Sessions
pub mod Creates
pub mod Sweeps
pub mod Lives
pub mod Containers
pub mod Access
pub mod Commands
pub mod Endpoints
pub mod Certificates
pub mod Tunnels
