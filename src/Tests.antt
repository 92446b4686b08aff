-- ===== src/Tests.antt =====
-- Concrete farms and requests, and the theorems at work on them.
mod Samples
mod ParentRuns
mod SchedulerRuns
mod RequestRuns
mod DiscoverRuns
mod ClientRuns
mod ViewRuns
mod SequenceRuns
mod SiteSamples
mod NameRuns
mod CaptureRuns
mod ArchiveRuns
mod LaunchRuns
mod CopyRuns
