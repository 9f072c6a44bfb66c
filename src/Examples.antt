-- ===== src/Examples.antt =====
-- Concrete players, pools and requests, at which the theorems are applied.
pub mod Sample
pub mod CairnRuns
pub mod PlayerRuns
pub mod PullRuns
pub mod VowRuns
pub mod RateRuns
pub mod LogRuns
pub mod Tally
pub mod SessionRuns
pub mod DiagRuns
pub mod AuthRuns
pub mod AchievementRuns
pub mod ServerRuns
pub mod BootRuns
pub mod FileRuns
pub mod TimeRuns
