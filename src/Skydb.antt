-- ===== src/Skydb.antt =====
-- pkg/server/skydb: records, users and access control.
pub mod Acl
pub mod Value
pub mod RecordMap
pub mod AuthInfo
pub mod Access
pub mod Record
pub mod UserRole
pub mod FieldAcl
pub mod Schema
pub mod AuthData
