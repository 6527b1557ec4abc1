-- ===== src/Hosts.antt =====
-- core/hosts.py
pub mod Migrate
pub mod Store
pub mod Registry
pub mod Address
pub mod Addresses
pub mod Agents
