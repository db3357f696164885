-- ===== src/Lib.antt =====
-- magma-operator: the Kubernetes operator that installs Magma access gateways (AGWs) and their
-- orchestrator (Orc8r), modelled from its Go sources.
--
-- The operator's parts. `MagmaAGWReconciler.Reconcile` (internal/controller/
-- magmaagw_controller.go) is called for one `MagmaAGW` resource and works through stages: its
-- finalizer, the gateway's identity (agw_identity.go), the gate on prepared datapath nodes, the
-- trust bundle and host alias of Orc8r (agw_lifecycle.go), the registration of the gateway by a
-- job (agw_identity.go), the simulator's gate, the embedded manifests (native_runner.go), and a
-- one-shot validation of the simulator (agw_validation.go). A resource that is deleted is torn
-- down by `reconcileAGWDeletion`. `MagmaOrc8rReconciler.Reconcile` (magmaorc8r_controller.go) does
-- the same for a `MagmaOrc8r`: it applies its manifests, keeps a secret of certificates
-- (orc8r_certs.go), rolls the secret's hash out to the deployments and the bootstrap job, and
-- patches magmalte; `reconcileOrc8rDeletion` tears it down. The operator keeps no state of its own: all state is in the API
-- server, which other clients change between its calls.
--
-- The model. A function that talks to the API server is a program `Prog A` (Kube/Prog.antt): a
-- tree that returns or makes one call and goes on with the answer, whatever that is. Nothing is
-- assumed of the server, so what holds of a program holds against any server and under any
-- interleaving with other clients. `Sat C Q h m` (Kube/Sat.antt) says that after the exchange `h`
-- each call of `m` satisfies `C` and the result satisfies `Q`; Kube/Frame.antt keeps facts about
-- what was exchanged; Kube/Only.antt bounds the calls; Kube/Server.antt runs a program against a
-- server. Kube/Always.antt is about how programs end. Client-library functions,
-- hashes, keys, certificates and JSON are the record `Library` (Kube/Library.antt), whose documented
-- behaviour is `IsLawful` (Kube/Lawful.antt); what `CreateOrUpdate` leaves of a secret is
-- `StoresSecrets` (Kube/Stores.antt). Kube/Objects.antt has the fields of the Kubernetes objects that are read or
-- written.
--
-- Which file models which part.
--   Base, Base/*            Go maps as association lists, the `strings` functions, int32, JSON.
--   Api/Agw, Api/Orc8r      api/v1alpha1/magmaagw_types.go and magmaorc8r_types.go.
--   Agw/Names               the constants and name functions of internal/controller.
--   Agw/Identity            agw_identity.go: `reconcileAGWIdentity`, keys, `newHardwareID`.
--   Agw/Jobs, Registration  agw_identity.go: the registration and deregistration jobs.
--   Agw/Lifecycle, RootCa   agw_lifecycle.go: host alias, trust bundle, root CA job, rollouts.
--   Agw/Validation, ValidationRun
--                           agw_validation.go: the one-shot validation of the simulator.
--   Agw/Datapath            magmaagw_controller.go: datapath gate, node labels, stale pods.
--   Agw/Status, Inputs      magmaagw_controller.go: conditions, results, the map of values.
--   Agw/Reconcile, Entry    magmaagw_controller.go: `Reconcile`, stage by stage, last stage first.
--   Agw/Deletion            magmaagw_controller.go: `reconcileAGWDeletion`.
--   Orc8r/Entry, Status, Values, Deletion, Names
--                           magmaorc8r_controller.go: `Reconcile`, its status, values and deletion.
--   Orc8r/SecretHash, Rollout, Magmalte
--                           magmaorc8r_controller.go: the hash of the certificate secret, its
--                           rollout to deployments and the bootstrap job, the patch of magmalte.
--   Orc8r/Certificates, CertSecret
--                           orc8r_certs.go: the certificates and the secret that keeps them.
--   Agw/OneShot             what the jobs of agw_lifecycle.go and agw_identity.go promise in common:
--                           a job that runs once for each version of its input, against a server
--                           that holds the jobs of all namespaces and names.
--   Native/*                native_runner.go: values, rendering, metadata, apply and delete.
--   Agw/Calls, Agw/Order, Agw/Reports
--                           proofs about a whole reconcile: the calls it makes, what it must have
--                           seen before it applies, how it ends.
--   a file in the folder of another file
--                           proofs about the definitions of that file, as Agw/Deletion/Last about
--                           Agw/Deletion.
--   Cmd                     cmd/main.go: the options of the manager, and the calls of `main`.
--   Tests/*                 a concrete library and the theorems at concrete inputs.
--
-- Texts and numbers. Texts are lists of characters, and a byte slice is the text of its bytes.
-- Loops are structural recursion, so no loop has fuel; the decimal digits of a number n have fuel
-- n + 1, more than its digits. Go's maps are walked in insertion order; the source walks them in
-- any order, and JSON escapes, log lines and metrics are left out. An `int32` wraps as in Go.
-- A text holds whole characters only: where the limit of `conditionMessage`, which cuts bytes,
-- falls inside a character, the model leaves that character out, and Go keeps a part of it.
--
-- Not modelled: the parsing of the command line, the generated deep copies, the registrations of
-- `SetupWithManager` and of the API group, and the contents of the embedded manifests.
pub mod Base
pub mod Kube
pub mod Api
pub mod Agw
pub mod Native
pub mod Orc8r
pub mod Cmd
pub mod Tests
