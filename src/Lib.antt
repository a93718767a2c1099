-- ===== src/Lib.antt =====
-- exec-helper: the core of the program, modelled and verified.
--
-- exec-helper reads a settings file with commands, patterns and plugin settings, builds from the command
-- line the list of commands to run, lets plugins turn each command into tasks, replaces the patterns in
-- the tasks by every combination of their values, and hands the tasks to a shell. The parts, and the
-- file that models each (paths are relative to the repository's root):
--
-- - Prelude: Boolean tests, lists over the native numbers, and strings as lists of bytes with the order
--   that std::map uses. OrderedMap: std::map with string keys, as an association list in key order.
-- - Platform: what the program takes from Boost (string replacement, lexical casts) and from the
--   operating system (current and absolute paths), as a record of operations with their documented
--   behaviour. Every definition that calls one takes the record as an instance argument.
-- - Core: the library src/core. Core.MapPermutator is core/mapPermutator.h (the iterator over all
--   combinations of pattern values), Core.Task is core/task.h and core/src/task.cpp.
-- - Config: the library src/config. Config.SettingsNode is the settings tree of settingsNode.h and .cpp
--   with the typed reads of cast-impl.h.
-- - Config.Patterns: pattern.h, patternsHandler.h and .cpp and config.cpp: patterns, and their reading
--   from the settings tree that the YAML parser built.
-- - Plugins: the library src/plugins. Plugins.State has the static stacks of executePlugin.cpp, the
--   executions of memory.cpp and the registered tasks as one state that a step changes. PluginUtils is
--   pluginUtils.cpp and core/src/patterns.cpp; Internal and Internal.Lcov are the plugins but
--   executePlugin.cpp, which is ExecutePlugin; Run ties the virtual call of Plugin::apply between them.
--   Internal.OptionHelpers is verbosity.h, threadedness.h and commandLine.h, TaskRegistration is
--   plugin.cpp.
-- - Commander: src/commander/src/commander.cpp; Commander.Sequence has several calls of it.
-- - Log: src/log/src/logLevel.cpp. Config.FleetingOptions: config/src/fleetingOptions.cpp, with
--   verifyOptions of src/applications/exec-helper.cpp.
-- - Environment: config/src/envp.cpp, whose objects are Environment.Objects, and toEnvCollection of
--   src/applications/exec-helper.cpp.
-- - Files: what the program takes from std::filesystem. Config.FileSearch: configFileSearcher.cpp and
--   pathManipulation.cpp. Config.OptionDescriptions: optionDescriptions.h and .cpp.
-- - Config.Argv: config/src/argv.cpp; Config.Argv.Ownership has which buffers are in use.
-- - Plugins.Lua: what luaPlugin.cpp shows to a script. Plugins.Memory: memory.cpp but its apply.
-- - Yaml: src/yaml/src/yamlWrapper.cpp, the walk from the tree of yaml-cpp to a settings tree;
--   Yaml.Access: the reads below some keys, of yaml.cpp.
-- - Core.PermutationIterator: core/permutationIterator.h and core/createObject.h.
-- - Core.Shell: core/src/posixShell.cpp. Core.Executor: immediateExecutor.cpp and reportingExecutor.cpp
--   with the callbacks of the main function.
-- - Application: src/applications/exec-helper.cpp; Application.Main is execHelperMain,
--   Application.Feedback and Application.Main.Lines are what it prints.
-- - Tests: the theorems at concrete inputs, and runs of the model.
--
-- Representation. A std::string is the list of its bytes; a std::vector is a list; a std::map is a list
-- sorted by key, and the operations keep the order (OrderedMap.Laws). A member function that changes an
-- object returns the changed object. A `uint32_t` index is computed modulo 2 ^ 32. `none` stands for
-- what each file's opening comment says: undefined behaviour, a failed precondition or an exception
-- that leaves a noexcept function. Messages to the user have no part in the state: what is printed
-- before the commands run is modelled apart from it. Log messages are left out.
--
-- Fuel. A range-based loop over permutations takes fuel, and one round more than there are combinations
-- is proved to be enough.
-- The nested calls of Plugin::apply take fuel for their depth, since a command of the settings may
-- lead to itself; the theorems on them hold for every fuel, and the program has no end where the model
-- has none for any fuel. A rank of the commands that goes down with each nested command is enough
-- fuel. The loop over the parents of a path takes fuel, too, and one round more than the path has
-- bytes is proved to be enough.
--
-- Not modelled: the stream operators, the loggers, the release of memory by standard containers, and the
-- variants for Windows. boost::program_options, yaml-cpp, wordexp, Boost.Process, std::filesystem, and
-- LuaJIT with the scripts that run in it are operations that the definitions are given.
mod Prelude
pub mod OrderedMap
pub mod Config
pub mod Core
pub mod Plugins
pub mod Commander
pub mod Application
pub mod Log
pub mod Environment
pub mod Platform
pub mod Files
pub mod Yaml
mod Tests
