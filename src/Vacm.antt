-- ===== src/Vacm.antt =====
-- pysnmp/proto/acmod/rfc3415.py: the View-based Access Control Model, class `Vacm`.
pub mod Access
pub mod Views
pub mod Model
