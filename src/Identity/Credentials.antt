-- ===== src/Identity/Credentials.antt =====
-- identity/src/client_credentials.rs, `BaseClientCredentialsStore`: credentials by their identifier,
-- with an index from labels to identifiers. A WebID is the text of its URL. Each operation is one
-- step.
pub mod Secret
pub mod Lookup
use solid_community_rs.Prelude.{
  ◌≡◌, ◌≢◌, refl, sym, ap, ◌∙◌, Bool, true, false, inl, inr, List, [], ◌∷◌, Option, none, some, map,
  filter, arith, Text, text_eq, text_eq_iff, text_eq_refl, Bool-cases, Option-cases, if◌then◌else◌,
}
use mathlib.Core.Option
use solid_community_rs.Prelude.HashMap
use solid_community_rs.Prelude.HashMap.{HashMap, get-insert, get-remove, get-empty}

pub record ClientCredentials : Type 0 where
  pub id : Text
  pub label : Text
  pub web_id : Text
  pub account_id : Text
  pub secret : Text

pub record BaseClientCredentialsStore : Type 0 where
  pub by_id : HashMap ClientCredentials
  pub by_label : HashMap Text

unfoldable pub new : BaseClientCredentialsStore
new = record { by_id = HashMap.empty; by_label = HashMap.empty }

unfoldable pub get : Text → BaseClientCredentialsStore → Option ClientCredentials
get id s = HashMap.get s.by_id id

abbrev pub by_index : Option Text → BaseClientCredentialsStore → Option ClientCredentials
by_index none s = none
by_index (some id) s = HashMap.get s.by_id id

unfoldable pub find_by_label : Text → BaseClientCredentialsStore → Option ClientCredentials
find_by_label label s = by_index (HashMap.get s.by_label label) s

unfoldable pub find_by_account : Text → BaseClientCredentialsStore → List ClientCredentials
find_by_account account_id s =
    filter (λ c. text_eq c.account_id account_id) (map (λ e. e.1) (HashMap.entries s.by_id))

-- `id` and `secret` are the fresh UUIDs.
unfoldable pub create :
    Text
    → Text
    → Text
    → Text
    → Text
    → BaseClientCredentialsStore
    → ClientCredentials × BaseClientCredentialsStore
create id secret label web_id account_id s =
    let creds : ClientCredentials = record {
      id = id;
      label = label;
      web_id = web_id;
      account_id = account_id;
      secret = secret;
    } in
    (
      creds,
      record {
        by_id = HashMap.insert id creds s.by_id;
        by_label = HashMap.insert label id s.by_label;
      },
    )

-- `true` for `Ok(())`, and `false` for the error that nothing was found.
unfoldable pub delete_found :
    Text → Option ClientCredentials → BaseClientCredentialsStore → Bool × BaseClientCredentialsStore
delete_found id none s = (false, record s { by_id = HashMap.remove id s.by_id })
delete_found id (some creds) s = (
  true,
  record { by_id = HashMap.remove id s.by_id; by_label = HashMap.remove creds.label s.by_label },
)

unfoldable pub delete : Text → BaseClientCredentialsStore → Bool × BaseClientCredentialsStore
unfolding delete_found
delete id s = delete_found id (HashMap.get s.by_id id) s

-- The index leads from a label to stored credentials with that label and the identifier it names.
pub record IsIndexed (s : BaseClientCredentialsStore) : Type 0 where
  pub at_label :
      (label id : Text)
      → HashMap.get s.by_label label ≡ some id
      → (c : ClientCredentials) × (HashMap.get s.by_id id ≡ some c) × (c.label ≡ label)

none_ne_some : {A : Type 0} {a : A} → ¬ (none ≡ some a)
none_ne_some h = cc h

true_ne_false : ¬ (true ≡ false)
true_ne_false h = cc h

some_eq : {A : Type 0} {a b : A} → some a ≡ some b → a ≡ b
some_eq h = cc h

pub new-IsIndexed : IsIndexed new
unfolding new
new-IsIndexed = record { at_label = λ label id h. cc (sym (get-empty label) ∙ h) }

-- The index after a creation.
pub created_label :
    (id : Text) (creds : ClientCredentials) (s : BaseClientCredentialsStore) (l i : Text)
    → IsIndexed s
    → HashMap.get s.by_id id ≡ none
    → HashMap.get s.by_label l ≡ some i
    → (c : ClientCredentials) × (HashMap.get (HashMap.insert id creds s.by_id) i ≡ some c)
      × (HashMap.get s.by_id i ≡ some c)
      × (c.label ≡ l)
created_label id creds s l i indexed fresh h =
    let (c, found, same) = indexed.at_label l i h in
    elim (Bool-cases (text_eq id i)) [
      | inl e ↦
          absurd
            (none_ne_some (sym fresh ∙ ap (HashMap.get s.by_id) ((text_eq_iff id i).0 e) ∙ found))
      | inr e ↦ (c, rw (get-insert, e) found, found, same)
    ]

-- Creating credentials under a fresh identifier keeps the index sound, whatever the label.
pub create-IsIndexed :
    (id secret label web_id account_id : Text) (s : BaseClientCredentialsStore)
    → IsIndexed s
    → get id s ≡ none
    → IsIndexed (create id secret label web_id account_id s).1
unfolding create get
create-IsIndexed id secret label web_id account_id s indexed fresh = record {
  at_label = λ l i h. elim (Bool-cases (text_eq label l)) [
    | inl e ↦
        let same : id ≡ i = some_eq (rw (get-insert, e) at h) in
        (
          record {
            id = id;
            label = label;
            web_id = web_id;
            account_id = account_id;
            secret = secret;
          },
          rw (sym same, get-insert, text_eq_refl id) refl,
          (text_eq_iff label l).0 e,
        )
    | inr e ↦
        let old : HashMap.get s.by_label l ≡ some i = rw (get-insert, e) at h in
        let (c, now, before, same) = created_label id _ s l i indexed fresh old in (c, now, same)
  ];
}

deleted-IsIndexed :
    (id : Text) (o : Option ClientCredentials) (s : BaseClientCredentialsStore)
    → IsIndexed s
    → HashMap.get s.by_id id ≡ o
    → IsIndexed (delete_found id o s).1
unfolding delete_found
deleted-IsIndexed id none s indexed e = record {
  at_label = λ l i h.
      let (c, found, same) = indexed.at_label l i h in
      elim (Bool-cases (text_eq id i)) [
        | inl x ↦
            absurd
              (none_ne_some (sym e ∙ ap (HashMap.get s.by_id) ((text_eq_iff id i).0 x) ∙ found))
        | inr x ↦ (c, rw (get-remove, x) found, same)
      ];
}
deleted-IsIndexed id (some creds) s indexed e = record {
  at_label = λ l i h. elim (Bool-cases (text_eq creds.label l)) [
    | inl x ↦ absurd (none_ne_some (rw (get-remove, x) at h))
    | inr x ↦
        let old : HashMap.get s.by_label l ≡ some i = rw (get-remove, x) at h in
        let (c, found, same) = indexed.at_label l i old in
        elim (Bool-cases (text_eq id i)) [
          | inl y ↦
              let one : creds ≡ c =
                some_eq (sym e ∙ ap (HashMap.get s.by_id) ((text_eq_iff id i).0 y) ∙ found) in
              absurd (
                true_ne_false
                  (sym ((text_eq_iff creds.label l).1 (ap (λ k. k.label) one ∙ same)) ∙ x))
          | inr y ↦ (c, rw (get-remove, y) found, same)
        ]
  ];
}

-- Deleting keeps the index sound: no label leads to credentials that are gone.
pub delete-IsIndexed :
    (id : Text) (s : BaseClientCredentialsStore) → IsIndexed s → IsIndexed (delete id s).1
unfolding delete
delete-IsIndexed id s indexed = deleted-IsIndexed id (HashMap.get s.by_id id) s indexed refl
