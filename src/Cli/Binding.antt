-- ===== src/Cli/Binding.antt =====
-- Where the two binaries bind, and where they differ.
use solid_community_rs.Prelude.{
  ◌≡◌, ◌⊎◌, refl, ap, ◌∙◌, inl, inr, List, [], ◌∷◌, Option, none, some, Text,
}
use solid_community_rs.ServerCore.Http.{HeaderValues, Response}
use solid_community_rs.ServerCore.Pipeline.{AuthzState}
use solid_community_rs.Cli.{
  Outcome, ok, failed, and_then, Host, Arguments, target, looked_up, literal_or, resolve_host,
  resolved, bind_address, started, serve_main, main,
}

-- An address is looked up unless it is a literal.
abbrev pub literal_first : {A : Type 0} → Option A → Option (List A) → Option (List A)
literal_first (some a) _ = some (a ∷ [])
literal_first none found = found

module _ {Address Listener : Type 0} (os : Host Address Listener) (values : HeaderValues)
    (unrouted : Response) where
  -- How the two resolve, for what the parse and the lookup give.
  abbrev Compared : Arguments → Option Address → Option (List Address) → Type 0
  Compared args p l =
      let both =
        literal_or os values unrouted p (looked_up os values unrouted args.host args.port l) in
      let one = resolved os values unrouted args.host args.port (literal_first p l) in
      (((addr : Address) × (one ≡ ok addr) × (both ≡ ok addr))
        ⊎ ((d e : Text) × (p ≡ none) × (l ≡ some []) × (one ≡ failed d) × (both ≡ failed e)))
      ⊎ ((d : Text) × (p ≡ none)
          × (l ≡ none)
          × (one ≡ failed d)
          × (both ≡ ok (os.any_interface args.port)))

  compare_addresses :
      (args : Arguments) (p : Option Address) (l : Option (List Address)) → Compared args p l
  compare_addresses args (some a) l = inl (inl (a, refl, refl))
  compare_addresses args none (some (a ∷ rest)) = inl (inl (a, refl, refl))
  compare_addresses args none (some []) = inl (inr (_, _, refl, refl, refl, refl))
  compare_addresses args none none = inr (_, refl, refl, refl, refl)

  -- If the standard library looks a host up unless it is a literal, then for the same arguments and
  -- the same pipeline the two binaries either do the same with the same address; or both fail,
  -- since the lookup gave no address; or the lookup failed, and `main.rs` fails while `serve.rs`
  -- binds all interfaces.
  pub binaries_compared :
      (authz : AuthzState) (args : Arguments)
      → let t = target os values unrouted args.host args.port in
        os.to_socket_addrs t ≡ literal_first (os.parse t) (os.lookup_host t)
        → (((addr : Address) × (main os values unrouted authz args
                ≡ started os values unrouted authz args addr)
              × (serve_main os values unrouted authz args
                  ≡ started os values unrouted authz args addr))
            ⊎ ((d e : Text) × (os.parse t ≡ none)
                × (os.lookup_host t ≡ some [])
                × (main os values unrouted authz args ≡ failed d)
                × (serve_main os values unrouted authz args ≡ failed e)))
          ⊎ ((d : Text) × (os.parse t ≡ none)
              × (os.lookup_host t ≡ none)
              × (main os values unrouted authz args ≡ failed d)
              × (serve_main os values unrouted authz args
                  ≡ started os values unrouted authz args (os.any_interface args.port)))
  unfolding main serve_main resolve_host bind_address
  binaries_compared authz args std =
      let t = target os values unrouted args.host args.port in
      let run = λ (o : Outcome Address). and_then o (started os values unrouted authz args) in
      let via = ap (λ x. run (resolved os values unrouted args.host args.port x)) std in
      elim (compare_addresses args (os.parse t) (os.lookup_host t)) [
        | inl (inl (addr, one, both)) ↦ inl (inl (addr, via ∙ ap run one, ap run both))
        | inl (inr (d, e, p, l, one, both)) ↦ inl (inr (d, e, p, l, via ∙ ap run one, ap run both))
        | inr (d, p, l, one, both) ↦ inr (d, p, l, via ∙ ap run one, ap run both)
      ]
