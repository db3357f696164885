-- ===== src/Kube.antt =====
-- What the operator sees of Kubernetes: the objects, the calls to the API server, and programs of
-- such calls.
pub mod Objects
pub mod Prog
pub mod Certificate
pub mod Library
pub mod Sat
pub mod Only
pub mod Always
pub mod Frame
pub mod Lawful
pub mod Stores
pub mod Server
