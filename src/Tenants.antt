-- ===== src/Tenants.antt =====
-- Tenants and their members: TenantService of src/tenants/tenantService.ts. Row-level security
-- repeats the statements' own filters and is left out.
pub mod Service
pub mod Directory
pub mod Members
pub mod Settings
pub mod Implements
mod Tests
