-- ===== src/Tests.antt =====
-- The theorems at concrete inputs, and runs of the model on small inputs.
mod Sample
mod SampleSystem
mod ShellRuns
mod ApplicationRuns
mod DryRuns
mod FeedbackRuns
mod HelperRuns
mod DepthRuns
mod SearchRuns
mod IteratorRuns
mod ArgvRuns
mod CoreRuns
mod SettingsRuns
mod PatternRuns
mod PluginRuns
mod OptionRuns
mod VariableRuns
mod EnvironmentRuns
