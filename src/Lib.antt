-- ===== src/Lib.antt =====
-- A model of solid-community-rs, a Solid server in Rust, with theorems on it.
--
-- The program. A request passes the layers of server-core: the CORS layer reads the credentials
-- from its headers, the authorisation layer asks a permission reader and an authorizer, the router
-- picks a handler by the method, and the handler reads or writes the in-memory store. http-types
-- holds what the crates share: identifiers, errors, methods and access modes. Beside them stand
-- solid-storage, key-value storages with expiry or in a file and decorators of stores,
-- static-assets, which finds the file for a request, and identity, the stores of accounts, cookies,
-- client credentials, pods and WebID links. cli starts a server, and integration-tests is a client
-- with suites of requests and what they expect, which are run here against the model of the server.
--
-- Files and code (paths from the repository's root):
--   ServerCore/Store        server-core/src/store.rs: `LdpStore` is a record with a map; `new`,
--                           `get`, `exists`, `put`, `delete` take the store last and a writing
--                           operation returns the new one; `ensure_each` is the loop of
--                           `ensure_ancestors`, and `extend`, `store_key`, `or_insert` its round
--   ServerCore/Store/Concurrent
--                           the same with several requests at work: `Step` is one section under
--                           the lock, `store_entry` the second one of `put`
--   ServerCore/Accept       server-core/src/ldp_handlers.rs, `accept_satisfied`
--   ServerCore/Handlers     server-core/src/ldp_handlers.rs, the other functions: one function per
--                           handler, from a request and a store to a response and a store
--   ServerCore/Http         requests, responses and header maps as the handlers see them
--   ServerCore/Middleware   server-core/src/middleware.rs
--   ServerCore/Pipeline     server-core/src/pipeline.rs and server-core/src/routing.rs: `pipeline`
--                           composes the layers as `build_router` does
--   HttpTypes/Identifier    http-types/src/identifier.rs; Identifier/Conversions has its traits
--   HttpTypes/Error         http-types/src/error.rs; Error/IntoResponse has the response
--   HttpTypes/Operation     http-types/src/operation.rs: methods and access modes
--   HttpTypes/Preferences   http-types/src/operation.rs: content preferences
--   HttpTypes/Metadata      http-types/src/metadata.rs
--   HttpTypes/Representation
--                           http-types/src/representation.rs
--   HttpTypes/Request       http-types/src/operation.rs, `Operation`, and http-types/src/handler.rs, the
--                           waterfall of handlers
--   SolidStorage/Memory     solid-storage/src/backends/memory.rs
--   SolidStorage/Expiring   solid-storage/src/backends/expiring.rs over any storage: `wrapped` is
--                           the storage at an instant, `sweep` one tick of the clean-up task that
--                           `new` starts
--   SolidStorage/KeyValue   solid-storage/src/key_value.rs: the trait as a record of operations on a
--                           state, `IsMap` and `ListsAll` what it promises, and the storage that
--                           rewrites keys
--   SolidStorage/JsonFile   solid-storage/src/backends/file.rs, over `Files`
--   SolidStorage/ResourceStore
--                           solid-storage/src/resource_store.rs and error.rs: the trait as a record
--                           of operations on a state, and the base, pass-through and read-only
--                           stores as such records
--   Identity/Accounts       identity/src/account.rs, `BaseAccountStore`
--   Identity/Cookies        identity/src/account.rs, `BaseCookieStore`
--   Identity/Credentials    identity/src/client_credentials.rs
--   Identity/Pods           identity/src/pod.rs
--   Identity/WebIds         identity/src/webid.rs
--   StaticAssets            static-assets/src/entry.rs and static-assets/src/handler.rs
--   Cli                     cli/src/main.rs, cli/src/serve.rs and server-core/src/app.rs: how the two
--                           binaries find their address and start the application
--   IntegrationTests/Runner integration-tests/src/runner.rs
--   IntegrationTests/Client integration-tests/src/client.rs: the requests as the record
--                           `SolidClient`, made by `client_of` from the way to send one, and the
--                           assertions
--   IntegrationTests/Health, ResourceCrud, Containers, Negotiation, ErrorResponses, Wac
--                           integration-tests/src/suites: health.rs, resource_crud.rs,
--                           containers.rs, content_negotiation.rs, error_responses.rs and wac.rs,
--                           over any `SolidClient`
--   IntegrationTests/Serves the laws that the suites ask for; Tidy has what a case leaves behind
--   IntegrationTests/Server the client over the pipeline of ServerCore, and in Server/Asked,
--                           Server/Laws and Server/Frame what its requests get, that the laws hold
--                           of it, and what its requests leave untouched
--   IntegrationTests/AllSuites
--                           integration-tests/src/runner.rs, `TestSuite::new`, and
--                           cli/src/test_runner.rs; `uuid` gives what each case of a suite draws
--   Prelude                 text as lists of code points with the functions of `str` that the code
--                           calls, and `HashMap` keyed by text, known by its laws
-- The folder of a file holds its lemmas: Store/Keys, Store/Ancestors, Store/Access,
-- Store/Untouched, Store/Invariant, Store/Containers, Store/Refinement and Concurrent/Closure,
-- Handlers/Reads, Handlers/Writes and Handlers/Safety, Pipeline/Access and Pipeline/Serving,
-- Identifier/Laws and Identifier/Climb, Expiring/Laws, KeyValue/Backends, JsonFile/Laws,
-- Preferences/Order, Preferences/Wildcards, Metadata/Links, StaticAssets/Resolution,
-- Runner/Counts, Runner/Failing, Runner/Passing and Runner/Tally, AllSuites/Keeping,
-- AllSuites/Parts, AllSuites/Answers and AllSuites/FullRun, Passing, EndToEnd and Outcome of the
-- suites, Cli/Binding, Accounts/Survival, Accounts/Idle, Accounts/Expiry, Credentials/Lookup,
-- Credentials/Secret, Pods/Owners and Pods/Refinement, HashMap/Scan and HashMap/Listing. The files
-- Tests evaluate the theorems.
--
-- Bounds. No function runs on fuel: each loop is recursion on a list. `ensure_ancestors` splits a
-- key in at most 100 pieces, as the source does; the theorems that need all containers of a key ask
-- for at most 99 slashes in it. A login counter has 64 bits and wraps.
--
-- Parameters, which stand for code that is not in the repository: header values of the crate http
-- (`HeaderValues`, with what the handlers rely on as its laws), the answer of axum to a method
-- that has no route (`unrouted`), the UUID that a POST draws (`slug`), the reader and the
-- authorizer of a pipeline (`AuthzState`), the instants that the clocks give, the identifiers that
-- are drawn, the JSON values of settings (`Value`), the weights of content types (`Preferences`),
-- `to_uppercase` of `str`, the path of a parsed URL (`url_path`), the file system and the encoding
-- of JSON (`Files`, whose documented behaviour is `AreFaithful`), `f32` with its comparison
-- (`Floats`, `IsOrder`), the guess of a MIME type (`mime`), the way of a request from the test
-- client to the pipeline through url, reqwest, hyper and axum (`Transport`, `IsFaithful`), the
-- resolver of names, the listener and its loop (`Host`), what `RequestPipeline::new()` gives
-- (`authz`), which the binaries call and pipeline.rs does not define, the status numbers and JSON
-- bodies of a response (`Encoding`), how numbers and headers are displayed (`show`,
-- `show_headers`), the reading of an asset (`read`) and the two key transformations of a storage
-- that rewrites keys.
--
-- Not modelled: the log calls, the parsing of arguments, the environment, the timer of the clean-
-- up task, requests of the test client that fail on their way, the derived serialisation of
-- metadata and the unit tests of the crates. The handlers run one after the other: for the store
-- itself the sections under its lock interleave, and for the expiring storage a write can come
-- between the two steps of an eviction; nowhere else.
pub mod Cli
pub mod HttpTypes
pub mod Identity
pub mod IntegrationTests
pub mod Prelude
pub mod ServerCore
pub mod SolidStorage
pub mod StaticAssets
