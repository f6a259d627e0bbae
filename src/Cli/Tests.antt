-- ===== src/Cli/Tests.antt =====
-- A host on which the lookup of every name fails.
use solid_community_rs.Prelude.{◌⊎◌, ◌≡◌, refl, ◌+◌, [], ◌∷◌, ◌++◌, none, some, true, Text, text}
use solid_community_rs.ServerCore.Http.{HeaderValues, status_only}
use solid_community_rs.ServerCore.Pipeline.{pass_through}
use solid_community_rs.Cli.{Host, ok, failed, serve_defaults, target, started, main, serve_main}
use solid_community_rs.Cli.Binding.{binaries_compared}

abbrev offline : Host Text Text
offline = record {
  show = λ n. (48 + n) ∷ [];
  parse = λ t. none;
  lookup_host = λ t. none;
  to_socket_addrs = λ t. none;
  any_interface = λ port. text "0.0.0.0:" ++ (48 + port) ∷ [];
  bind = λ a. ok a;
  serve = λ l r. ok tt;
}

-- Header values that may be any text.
abbrev any_value : HeaderValues
any_value = record {
  to_str = λ v. some v;
  is_valid = λ v. true;
  to_str_valid = λ v t h. refl;
  turtle_valid = refl;
  octets_valid = refl;
}

binaries_compared_example :
    let t = target offline any_value (status_only 405) serve_defaults.host serve_defaults.port in
    (((addr : Text) × (main offline any_value (status_only 405) pass_through serve_defaults
          ≡ started offline any_value (status_only 405) pass_through serve_defaults addr)
        × (serve_main offline any_value (status_only 405) pass_through serve_defaults
            ≡ started offline any_value (status_only 405) pass_through serve_defaults addr))
      ⊎ ((d e : Text) × (offline.parse t ≡ none)
          × (offline.lookup_host t ≡ some [])
          × (main offline any_value (status_only 405) pass_through serve_defaults ≡ failed d)
          × (serve_main offline any_value (status_only 405) pass_through serve_defaults
              ≡ failed e)))
    ⊎ ((d : Text) × (offline.parse t ≡ none)
        × (offline.lookup_host t ≡ none)
        × (main offline any_value (status_only 405) pass_through serve_defaults ≡ failed d)
        × (serve_main offline any_value (status_only 405) pass_through serve_defaults
            ≡ started offline any_value
                (status_only 405)
                pass_through
                serve_defaults
                (offline.any_interface serve_defaults.port)))
binaries_compared_example =
    binaries_compared offline any_value (status_only 405) pass_through serve_defaults refl
