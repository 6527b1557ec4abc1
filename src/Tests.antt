-- ===== src/Tests.antt =====
-- Witnesses: the properties at concrete inputs.
mod Fleet
mod Hosts
mod Attachments
mod Secrets
mod Registry
mod Manifest
mod Skills
mod Channels
mod Onboarding
mod Install
mod Lifecycle
mod Integrations
mod Credentials
