-- ===== src/Tests.antt =====
-- Tests: runs on concrete inputs, mirroring src/test_dimmit.c, and inputs for the theorems.
mod Fixtures
mod Dimmers
mod Controllers
mod Wires
mod Daemons
mod Lamps
mod Replays
mod Syncs
mod Backends
mod Macs
mod Identities
mod Inputs
mod Captures
mod Systems
