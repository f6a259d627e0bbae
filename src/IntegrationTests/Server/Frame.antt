-- ===== src/IntegrationTests/Server/Frame.antt =====
-- What requests for one path leave at the root and at the other paths of the suites.
use solid_community_rs.Prelude.{
  ℕ, ◌≡◌, ◌≢◌, ap, sym, ◌∙◌, false, ◌⊎◌, inl, inr, List, [], ◌∷◌, Option, none, some, arith, Text,
  text, text_eq, text_eq_iff, starts_with, All, All-map,
}
use solid_community_rs.Prelude.Split.{utf8}
use solid_community_rs.ServerCore.Http.{HeaderValues, Response}
use solid_community_rs.ServerCore.Store
use solid_community_rs.ServerCore.Store.{Entry, LdpStore}
use solid_community_rs.ServerCore.Store.Access.{put_keeps, delete_lem, get-delete_ne}
use solid_community_rs.ServerCore.Store.Untouched.{put_adds_nothing, delete_adds_nothing}
use solid_community_rs.ServerCore.Handlers.{handle_patch}
use solid_community_rs.ServerCore.Handlers.Reads.{key-resolve_path}
use solid_community_rs.IntegrationTests.Client.{SolidClient}
use solid_community_rs.IntegrationTests.Tidy.{IsTidy}
use solid_community_rs.IntegrationTests.Server.{Transport, IsFaithful, client, patch_at}
use solid_community_rs.IntegrationTests.Server.Asked.{
  place, put_asked, delete_asked, get_kept, get_accept_kept,
}
use solid_community_rs.IntegrationTests.Server.Laws.{IsReadable}

-- The root has the entry, and nothing is at the paths.
abbrev pub IsReady : Entry → List Text → LdpStore → Type 0
IsReady e free s = (Store.get (text "/") s ≡ some e) × All (λ j. Store.get j s ≡ none) free

-- The same but for one of the paths.
abbrev pub InUse : Entry → List Text → Text → LdpStore → Type 0
InUse e free p s =
    (Store.get (text "/") s ≡ some e) × All (λ j. (j ≡ p) ⊎ (Store.get j s ≡ none)) free

-- A key is not that of the root, and none of the paths begins it, but for one.
abbrev pub IsApart : List Text → Text → Text → Type 0
IsApart free p q =
    (text_eq (text "/") q ≡ false)
    × (All (λ j. (j ≡ p) ⊎ (starts_with (Store.key q) (Store.key j) ≡ false)) free)

root_key :
    (q : Text) → text_eq (text "/") q ≡ false → Store.key q ≡ q → Store.key (text "/") ≢ Store.key q
unfolding Store.key
root_key q other normal same = ground (arith, text_eq_iff (text "/") q)

module _ (e : Entry) where
  spared :
      (free : List Text) (p q : Text) (body : List ℕ) (t : Text) (s : LdpStore)
      → All (λ j. (j ≡ p) ⊎ (starts_with (Store.key q) (Store.key j) ≡ false)) free
      → All (λ j. (j ≡ p) ⊎ (Store.get j s ≡ none)) free
      → All (λ j. (j ≡ p) ⊎ (Store.get j (Store.put q body t s).1 ≡ none)) free
  spared [] p q body t s apart used = tt
  spared (j ∷ free) p q body t s (inl own, apart) (u, used) =
      (inl own, spared free p q body t s apart used)
  spared (j ∷ free) p q body t s (inr other, apart) (inl own, used) =
      (inl own, spared free p q body t s apart used)
  spared (j ∷ free) p q body t s (inr other, apart) (inr absent, used) =
      (inr (put_adds_nothing q body t s j other absent), spared free p q body t s apart used)

  pub put-InUse :
      (free : List Text) (p q : Text) (body : List ℕ) (t : Text) (s : LdpStore)
      → Store.key q ≡ q
      → IsApart free p q
      → InUse e free p s
      → InUse e free p (Store.put q body t s).1
  put-InUse free p q body t s normal (not_root, apart) (root, used) = (
    put_keeps q body t s (text "/") e (root_key q not_root normal) root,
    spared free p q body t s apart used,
  )

  delete-IsReady :
      (free : List Text) (p : Text) (s : LdpStore)
      → Store.key p ≡ p
      → text_eq (text "/") p ≡ false
      → InUse e free p s
      → IsReady e free (Store.delete p s).1
  delete-IsReady free p s normal not_root (root, used) = (
    get-delete_ne p s (text "/") (root_key p not_root normal) ∙ root,
    All-map _ _
        (λ j u. elim u [
          | inl own ↦ rw own (delete_lem p s).1
          | inr absent ↦ delete_adds_nothing p s j absent
        ])
        free used,
  )

module _ (values : HeaderValues) (unrouted : Response) (slug : Text) (transport : Transport)
    (wildcard : Text → Option Text) (faithful : IsFaithful values transport wildcard) (path : Text)
    (e : Entry) (free : List Text) where
  abbrev server : SolidClient LdpStore
  server = client values unrouted slug transport

  patch_kept : (b t : Text) (s : LdpStore) → (server.patch path b t s).1 ≡ s
  unfolding handle_patch
  patch_kept b t s =
      ap (λ a. a.1) (patch_at values unrouted slug transport _ s (faithful.method_sent _ path _ _))

  pub normal_key :
      place values unrouted slug transport wildcard faithful path ≡ path → Store.key path ≡ path
  normal_key arrives = ap Store.key (sym arrives) ∙ key-resolve_path (wildcard path) ∙ arrives

  -- The requests for a path that reaches the router as it is written.
  pub server-IsTidy :
      place values unrouted slug transport wildcard faithful path ≡ path
      → IsApart free path path
      → IsTidy server path (IsReadable values) (IsReady e free) (InUse e free path)
  server-IsTidy arrives apart = record {
    began = λ s p. (p.0, All-map _ _ (λ j absent. inr absent) free p.1);
    put_keeps = λ b t s r q.
        rw
          ((put_asked values unrouted slug transport wildcard faithful path b t s r).0
            ∙ ap (λ k. (Store.put k (utf8 b) t s).1) arrives)
          (put-InUse e free path path (utf8 b) t s (normal_key arrives) apart q);
    get_keeps = λ s q. rw (get_kept values unrouted slug transport wildcard faithful path s) q;
    got_keeps = λ s p. rw (get_kept values unrouted slug transport wildcard faithful path s) p;
    accept_keeps =
        λ a s q. rw (get_accept_kept values unrouted slug transport wildcard faithful path a s) q;
    patch_keeps = λ b t s q. rw (patch_kept b t s) q;
    delete_clears = λ s q.
        rw
          ((delete_asked values unrouted slug transport wildcard faithful path s).0
            ∙ ap (λ k. (Store.delete k s).1) arrives)
          (delete-IsReady e free path s (normal_key arrives) apart.0 q);
  }
