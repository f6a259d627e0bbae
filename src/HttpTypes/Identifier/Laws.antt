-- ===== src/HttpTypes/Identifier/Laws.antt =====
-- Containers and documents, parents and children.
use solid_community_rs.Prelude.{
  ℕ, zero, suc, ◌≡◌, refl, ap, ◌∙◌, Bool, true, false, inl, inr, [], ◌∷◌, ◌++◌, none, some, arith,
  Text, slash, starts_with, ends_with, trim_end_matches, trim_start_matches, take, ◌==◌, ==_iff,
  Bool-cases, Option-cases,
}
use solid_community_rs.Prelude.Split.{rfind, found_later}
use solid_community_rs.Prelude.Trim.{
  ends_with-concat, ends_with-trim_end_matches, trim_end_matches_fixed, trim_end_matches-concat,
}
use solid_community_rs.HttpTypes.Identifier.{
  ResourceIdentifier, is_container, as_container, as_document, join,
}

is_container-as_container : (id : ResourceIdentifier) → is_container (as_container id) ≡ true
unfolding as_container
is_container-as_container id = elim (Bool-cases (ends_with id.path slash)) [
  | inl e ↦ rw e e
  | inr e ↦ rw e (ends_with-concat id.path slash)
]

trim-as_container :
    (id : ResourceIdentifier)
    → trim_end_matches (as_container id).path slash ≡ trim_end_matches id.path slash
unfolding as_container
trim-as_container id = elim (Bool-cases (ends_with id.path slash)) [
  | inl e ↦ rw e refl
  | inr e ↦ rw e (trim_end_matches-concat id.path slash)
]

as_container_fixed : (id : ResourceIdentifier) → is_container id ≡ true → as_container id ≡ id
unfolding as_container
as_container_fixed id h = rw h refl

-- The container of an identifier is a container, the document is none, the document of the
-- container is the document, and doing either twice changes nothing.
container_and_document :
    (id : ResourceIdentifier)
    → (is_container (as_container id) ≡ true)
      × (is_container (as_document id) ≡ false)
      × (as_document (as_container id) ≡ as_document id)
      × (as_container (as_container id) ≡ as_container id)
      × (as_document (as_document id) ≡ as_document id)
unfolding as_container as_document
container_and_document id = (
  is_container-as_container id,
  unfold is_container in ends_with-trim_end_matches id.path slash,
  ap (λ p. record { path = p }) (trim-as_container id),
  as_container_fixed (as_container id) (is_container-as_container id),
  ap (λ p. record { path = p })
      (trim_end_matches_fixed _ slash (ends_with-trim_end_matches id.path slash)),
)

-- An identifier that is no container comes back from its container.
as_document-as_container :
    (id : ResourceIdentifier) → is_container id ≡ false → as_document (as_container id) ≡ id
unfolding as_container as_document
as_document-as_container id h =
    ap (λ p. record { path = p })
      (trim-as_container id ∙ trim_end_matches_fixed id.path slash (unfold is_container in h))

pub found_here : (b : Bool) (i : ℕ) → found_later b none ≡ some i → (b ≡ true) × (i ≡ zero)
found_here true i h = ground arith
found_here false i h = cc h

pub rfind-some : (s : Text) (c i : ℕ) → rfind s c ≡ some i → take (suc i) s ≡ take i s ++ c ∷ []
unfolding rfind
rfind-some [] c i h = cc
rfind-some (x ∷ s) c i h = elim (Option-cases (rfind s c)) [
  | inl e ↦ let here = found_here (x == c) i (rw e at h) in rw (here.1, (==_iff x c).0 here.0) refl
  | inr (j, e) ↦
      let h' : found_later (x == c) (some j) ≡ some i = rw e at h in
      let later : i ≡ suc j = ground arith in rw later (ap (λ l. x ∷ l) (rfind-some s c j e))
]

starts_with-trim_start_matches :
    (s : Text) (c : ℕ) → starts_with (trim_start_matches s c) (c ∷ []) ≡ false
unfolding trim_start_matches starts_with
starts_with-trim_start_matches [] c = refl
starts_with-trim_start_matches (x ∷ s) c = ground (arith, starts_with-trim_start_matches s c)

-- Between the base and the segment of a join stands exactly one slash.
join_lem :
    (id : ResourceIdentifier) (segment : Text)
    → (base rest : Text) × ((join id segment).path ≡ base ++ slash ∷ rest)
      × (ends_with base slash ≡ false)
      × (starts_with rest (slash ∷ []) ≡ false)
      × (join (as_container id) segment ≡ join id segment)
unfolding join
join_lem id segment = (
  trim_end_matches id.path slash,
  trim_start_matches segment slash,
  refl,
  ends_with-trim_end_matches id.path slash,
  starts_with-trim_start_matches segment slash,
  ap (λ b. record { path = b ++ slash ∷ trim_start_matches segment slash }) (trim-as_container id),
)
