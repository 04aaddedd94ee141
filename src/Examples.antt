-- ===== src/Examples.antt =====
-- Concrete runs: the properties at inputs that meet their hypotheses, and tests of the definitions.
mod Data
mod JournalRuns
mod GraveyardRuns
mod MachineRuns
mod LeaseRuns
mod AccountRuns
mod OauthRuns
mod TranscriptRuns
mod JsonlRuns
mod HookRuns
mod SettingsRuns
mod OpencodeRuns
mod AcpRuns
mod TurnRuns
