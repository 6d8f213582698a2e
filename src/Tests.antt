-- ===== src/Tests.antt =====
-- Runs of the model on a small machine: one stream in, one stream out, one file.
pub mod Machine
pub mod UtilRuns
pub mod NetworkRuns
pub mod ServerRuns
pub mod ClientRuns
pub mod BlockingMachine
pub mod ThreadRuns
pub mod WorkerRuns
pub mod DownloadRuns
pub mod ProgramRuns
pub mod ExchangeRuns
pub mod EventRuns
pub mod RawSocketRuns
pub mod TextRuns
