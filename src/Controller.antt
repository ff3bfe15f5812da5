-- ===== src/Controller.antt =====
-- ci/private-pki-operator/internal/controller: the reconciler. One module for each file of the
-- package, with the proofs about it below it.
pub mod State
pub mod Conditions
pub mod Certificates
pub mod TrustBundle
pub mod Discovery
pub mod EnsureIntermediates
pub mod StaleSweep
pub mod VerifyChain
pub mod Phases
pub mod Cascade
pub mod Intermediate
pub mod Reconcile
pub mod Watches
pub mod Wakes
pub mod Renewal
pub mod History
pub mod Frame
pub mod Graph
pub mod Example
pub mod Tests
pub mod Chain
pub mod KeyIds
pub mod Children
pub mod Owner
pub mod Retention
