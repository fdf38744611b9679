-- ===== src/Server.antt =====
-- pkg/runtime/server: the inbound chain and the wrapping of raw handlers (grpc.go, http.go, types.go)
-- in `Chain`, the readiness and drain logic (probe.go, drain.go) in `Probe`, the listeners with
-- their routes in `Listen`, and TLS files (tls.go) in `Tls`.
pub mod Chain
pub mod Sample
pub mod Probe
pub mod Response
pub mod Listen
pub mod Tls
