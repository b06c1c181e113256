-- ===== src/Privileges.antt =====
-- Dropping privileges (src/privileges/).
pub mod Plan
pub mod Apply
