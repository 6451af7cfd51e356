-- ===== src/Dao.antt =====
-- db_service/dao.go, one child for each table. Each function works on the table that it names.
pub mod Exists
pub mod Instances
pub mod Bindings
pub mod Requests
pub mod Deployments
