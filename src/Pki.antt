-- ===== src/Pki.antt =====
-- ci/private-pki-operator/internal/pki: PEM bundles and X.509 key identifiers.
-- `encoding/pem` and `crypto/x509` are Go's standard library, not code of the repository: what the
-- package uses of them is the interface `Codec`, and the laws that it relies on are `Codec.IsLawful`.
pub mod KeyId
pub mod Codec
pub mod Pem
pub mod Toy
