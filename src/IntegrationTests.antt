-- ===== src/IntegrationTests.antt =====
-- The integration-tests crate: the runner of test suites, its client with the assertions, and the
-- suites, with what they find on the server that is modelled.
pub mod Runner
pub mod Client
pub mod Serves
pub mod Tidy
pub mod Server
pub mod Health
pub mod ResourceCrud
pub mod Containers
pub mod Negotiation
pub mod ErrorResponses
pub mod Wac
pub mod AllSuites
mod Tests
