-- ===== src/Api.antt =====
-- The HTTP layer of packages: api/package-controller.go with api/conditional-requests.go,
-- api/content-negotiation.go and internal/archive_validator/archive-validator.go. A request is the
-- values that a handler reads, an answer is a status with headers and a body.
pub mod Negotiate
pub mod Conditional
pub mod Packages
pub mod Files
pub mod Routes
pub mod RouteLaws
pub mod Admin
pub mod Templates
pub mod Laws
pub mod Negotiated
pub mod Printed
pub mod Tests
pub mod RouteTests
