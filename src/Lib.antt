-- ===== src/Lib.antt =====
-- A model of the operator in ci/private-pki-operator, which rotates the root CA of a private PKI that
-- cert-manager issues and trust-manager distributes, with theorems about it.
--
-- The program is a Kubernetes controller with one resource, PKIRotation. Each reconcile reads the
-- object, looks at its phase, does one step of the rotation, and writes the next phase into the
-- status. A root goes Idle, PreservingOldRoot, DualTrustActive, AwaitingReissuance, VerifyingChain,
-- Complete and back; an intermediate CA, which has a rotation of its own that the root's creates,
-- goes Idle, AwaitingReissuance, VerifyingChain, Complete. While a root rotates, the staging
-- ConfigMap has the old and the new root, and the old one may go only when nothing needs it.
--
-- The parts, by file; Go paths are below ci/private-pki-operator:
--   Common        tests, lists, maps as association lists
--   Action        Go functions that return an error and mutate what they are given: a function of a
--                 state into a result and the state after it, which an error does not undo. `panic`
--                 is a result of its own. Action/Keeps has invariants of actions, Action/Triple
--                 Hoare triples, Action/Runs the runs of the parts of a call that returned,
--                 Action/Guard what holds until a result is reached, Action/Total calls that do not
--                 panic
--   Pki           internal/pki: KeyId is x509.go, Pem is pem.go, Codec what both use of the library
--   Api           api/v1alpha1/pkirotation_types.go
--   Cluster       the calls to the API server, the clock and cert-manager's helper: parameters
--   Metrics       internal/controller/metrics.go
--   Controller    the rest of internal/controller. State is what a reconcile changes; then a file
--                 for each Go file: Conditions for pkirotation_status.go, Certificates,
--                 TrustBundle, Discovery, EnsureIntermediates, StaleSweep, VerifyChain, Phases and
--                 Cascade for pkirotation_phases.go, Intermediate, with a file for each phase, and Reconcile
--                 for pkirotation_controller.go. A function has the Go name in snake case; a branch of
--                 a long function is a function of its own, named beside it. Watches is
--                 pkirotation_setup.go, and intermediateSecretMapper
--   Fleet         internal/controller/fleet_metrics.go, which counts the hierarchy at each scrape
--   Manager       cmd/main.go, the start of the process
--
-- How they interact: Manager starts the controller and registers the fleet collector; Watches turns
-- the events of the objects into requests; Reconcile dispatches a request to the handlers of Phases,
-- Cascade and Intermediate, which call the other files of Controller; TrustBundle and Certificates
-- call Pki, and Conditions reports to Metrics. A root's rotation makes those of its intermediates in
-- EnsureIntermediates.
--
-- The proofs: Controller/Frame says of a predicate which calls and writes must keep it, and shows
-- that then the handlers keep it; Controller/Graph, Retention and KeyIds are instances. Chain is
-- about the re-issuance, the checks before the old root goes, and those before an intermediate's
-- cascade ends, and VerifyChain/Baseline about what a leaf is compared with; Owner is about the start
-- of such a cascade, Children about the rotations that a root makes, StaleSweep/Untouched about what the sweep leaves alone. Wakes is about what calls the
-- controller again, Renewal about the start of a rotation, and History about a whole one as a run of
-- reconciles. Discovery/Exact says what the search finds, Discovery/Depth and Discovery/Cycle whether
-- it ends. A file Tests, or one below Controller/Tests, has examples on the cluster in memory of
-- Cluster/Memory and the codec of Pki/Toy.
--
-- Parameters. `Client` stands for the Kubernetes API server and the client library: each call is a
-- function of the state of everything outside into a result and a new such state, the reads too,
-- since others may act between any two calls. Nothing is assumed of it but in named hypotheses:
-- `StoresStatus`, a status update gives back the status and the specification that were sent;
-- `Guards`, a certificate in the staging ConfigMap is seen by who reads it, and goes only if somebody
-- writes a text without it; `IsSteady` and `ReadsStay`, the lists do not change while they are only
-- read; `Quiet`, the reads of a mapper change nothing. `Codec` stands for encoding/pem and
-- crypto/x509, and `IsLawful` says what the documentation of encoding/pem promises. `Platform` stands
-- for the flag package and the manager of controller-runtime, and `Keeps` says of what holds before
-- the manager starts that the calls before leave it; the predicates of the library's watches are
-- arguments of an event.
--
-- Bounds and fuel. The loops over PEM text run on fuel, one more than the length of the text, and
-- each round leaves a shorter text, so it does not run out (Pki/Pem/Blocks). The breadth-first search
-- recurs as deep as the stack, `Client.stack_depth`, and panics beyond it, since the Go function has
-- no bound either (Discovery/Depth: how deep is enough). A time is a natural number of seconds and 0
-- is the zero time; a byte is a natural number, below 256 where that matters.
--
-- Not modelled: logging; the registration of the metrics and of the types with a scheme; the options
-- of zap; generated code and test helpers. Error texts that a library makes are left out; the others
-- are lists of the texts and numbers that the format puts together.
mod Common
pub mod Action
pub mod Pki
pub mod Api
pub mod Cluster
pub mod Metrics
pub mod Controller
pub mod Fleet
pub mod Manager
