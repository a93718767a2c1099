-- ===== src/Config.antt =====
-- The library `config`: the settings tree, patterns, command-line options and their containers.
pub mod SettingsNode
pub mod Patterns
pub mod FleetingOptions
pub mod FileSearch
pub mod OptionDescriptions
pub mod Argv
