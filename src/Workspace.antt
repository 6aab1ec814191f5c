-- ===== src/Workspace.antt =====
-- PlatformCloud/DeveloperWorkspace: the job queue (JobQueue.cpp) and the handlers of the control plane
-- on the in-memory store (WorkspaceControlPlane.cpp, where `postgres_` is null).
mod Examples
pub mod Sources
pub mod Queue
pub mod Handlers
pub mod Dispatch
