-- ===== src/Plugins.antt =====
-- The library `plugins`: what turns commands into tasks.
pub mod PluginUtils
pub mod State
pub mod Internal
pub mod ExecutePlugin
pub mod Run
pub mod Lua
pub mod Memory
pub mod TaskRegistration
