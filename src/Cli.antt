-- ===== src/Cli.antt =====
-- apps/cli/src/trutina/cli: how what was typed becomes the input of a service.
pub mod Parsers
pub mod Messages
pub mod Hints
pub mod Boundary
