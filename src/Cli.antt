-- ===== src/Cli.antt =====
-- The crate cli, `main.rs` and `serve.rs`, and server-core/src/app.rs: the two binaries that start the
-- server. Parsing the arguments, the environment and logging are left out.
pub mod Binding
mod Tests
use solid_community_rs.Prelude.{ℕ, List, [], ◌∷◌, ◌++◌, Option, none, some, Text, text}
use solid_community_rs.ServerCore.Http.{HeaderValues, Request, Response}
use solid_community_rs.ServerCore.Store
use solid_community_rs.ServerCore.Store.{LdpStore}
use solid_community_rs.ServerCore.Pipeline.{AuthzState, pipeline}

-- `Result` of the crate anyhow, with the message of the error.
pub data Outcome (A : Type 0) : Type 0 where
  ok : A → Outcome A
  failed : Text → Outcome A

-- `?` on a result.
abbrev pub and_then : {A B : Type 0} → Outcome A → (A → Outcome B) → Outcome B
and_then (ok a) next = next a
and_then (failed e) next = failed e

-- The application of axum: the answer to a request, with the UUID that it would draw, and the store
-- after it.
pub record Router : Type 0 where
  pub store : LdpStore
  pub respond : Text → Request → LdpStore → Response × LdpStore

-- What the standard library, tokio and axum do. The two lookups give nothing if they fail;
-- `any_interface` is the address 0.0.0.0 with a port; `serve` tells how serving ends.
pub record Host (Address Listener : Type 0) : Type 0 where
  pub show : ℕ → Text
  pub parse : Text → Option Address
  pub lookup_host : Text → Option (List Address)
  pub to_socket_addrs : Text → Option (List Address)
  pub any_interface : ℕ → Address
  pub bind : Address → Outcome Listener
  pub serve : Listener → Router → Outcome (Unit {0})

pub record Arguments : Type 0 where
  pub base_url : Text
  pub port : ℕ
  pub host : Text
  pub log_level : Text

-- The defaults of `serve.rs` and of `main.rs`.
unfoldable pub serve_defaults : Arguments
serve_defaults = record {
  base_url = text "http://localhost:3000/";
  port = 3000;
  host = text "localhost";
  log_level = text "info";
}

unfoldable pub main_defaults : Arguments
main_defaults = record {
  base_url = text "http://localhost:3500/";
  port = 3000;
  host = text "localhost";
  log_level = text "info";
}

pub record AppConfig (Address : Type 0) : Type 0 where
  pub base_url : Text
  pub bind_address : Address
  pub log_level : Text

pub record App (Address : Type 0) : Type 0 where
  pub config : AppConfig Address
  pub authz : AuthzState

module _ {Address Listener : Type 0} (os : Host Address Listener) (values : HeaderValues)
    (unrouted : Response) where
  abbrev pub target : Text → ℕ → Text
  target host port = host ++ (text ":" ++ os.show port)

  abbrev pub first_of : Text → List Address → Outcome Address
  first_of message [] = failed message
  first_of message (a ∷ _) = ok a

  abbrev pub looked_up : Text → ℕ → Option (List Address) → Outcome Address
  looked_up host port (some addrs) =
      first_of (text "DNS lookup for '" ++ (host ++ text "' returned no addresses")) addrs
  looked_up host port none = ok (os.any_interface port)

  abbrev pub literal_or : Option Address → Outcome Address → Outcome Address
  literal_or (some addr) other = ok addr
  literal_or none other = other

  unfoldable pub resolve_host : Text → ℕ → Outcome Address
  resolve_host host port =
      literal_or (os.parse (target host port))
        (looked_up host port (os.lookup_host (target host port)))

  abbrev pub resolved : Text → ℕ → Option (List Address) → Outcome Address
  resolved host port none = failed (
      text "Could not resolve bind address `"
      ++ (target host port
          ++ text
              "`. Pass a hostname resolvable on this machine or an IP literal such as `127.0.0.1` or `0.0.0.0`."))
  resolved host port (some addrs) =
      first_of (text "Host `" ++ (host ++ text "` resolved to zero addresses.")) addrs

  -- The address that `main.rs` binds.
  unfoldable pub bind_address : Text → ℕ → Outcome Address
  bind_address host port = resolved host port (os.to_socket_addrs (target host port))

  abbrev pub build_router : AuthzState → Router
  build_router authz = record { store = Store.new; respond = pipeline values authz unrouted }

  -- The router is built once the listener is bound.
  unfoldable pub start : App Address → Outcome (Unit {0})
  start app = and_then (os.bind app.config.bind_address) (λ l. os.serve l (build_router app.authz))

  -- What both binaries do with an address; `authz` is that of `RequestPipeline::new()`, which they
  -- call and which is not in the source.
  abbrev pub started : AuthzState → Arguments → Address → Outcome (Unit {0})
  started authz args addr = start (record {
    config = record { base_url = args.base_url; bind_address = addr; log_level = args.log_level };
    authz = authz;
  })

  unfoldable pub serve_main : AuthzState → Arguments → Outcome (Unit {0})
  unfolding resolve_host start
  serve_main authz args = and_then (resolve_host args.host args.port) (started authz args)

  unfoldable pub main : AuthzState → Arguments → Outcome (Unit {0})
  unfolding bind_address start
  main authz args = and_then (bind_address args.host args.port) (started authz args)
