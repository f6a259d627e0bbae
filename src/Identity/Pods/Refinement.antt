-- ===== src/Identity/Pods/Refinement.antt =====
-- Each operation on the rows does to the owners what it means to do, and keeps the rows distinct.
use solid_community_rs.Prelude.{
  ◌≡◌, ◌≢◌, refl, sym, ap, ◌∙◌, Bool, true, false, ◌&&◌, inl, inr, Option, none, some, arith, Text,
  text_eq, text_eq_iff, Bool-cases, and-eq-true_iff, if◌then◌else◌,
}
use solid_community_rs.Prelude.HashMap
use solid_community_rs.Prelude.HashMap.{HashMap, get-empty, get-insert, get-remove}
use solid_community_rs.Prelude.HashMap.Scan.{find_value_sound, find_value-none}
use solid_community_rs.Identity.Pods
use solid_community_rs.Identity.Pods.{
  OwnerRow, BasePodStore, PodSettings, owner_row, first_owner, is_owner, find_owner, update_found,
  remove_found, create, update_owner, remove_owner,
}
use solid_community_rs.Identity.Pods.Owners.{
  AreDistinct, visibility, visibility-insert, visibility-remove,
}

some_eq : {q r : OwnerRow} → some q ≡ some r → q ≡ r
some_eq h = cc h

none_ne_some : {a : OwnerRow} → ¬ (none ≡ some a)
none_ne_some h = cc h

pub new-AreDistinct : AreDistinct (Pods.new).owners
unfolding Pods.new
new-AreDistinct = record {
  keyed = λ k r h. absurd (none_ne_some (sym (get-empty k) ∙ h));
  single = λ p x j k q r h. absurd (none_ne_some (sym (get-empty j) ∙ h));
}

insert-AreDistinct :
    (k : Text) (row : OwnerRow) (m : HashMap OwnerRow)
    → AreDistinct m
    → row.id ≡ k
    → ((p x j : Text) (r : OwnerRow)
        → is_owner p x row ≡ true
        → HashMap.get m j ≡ some r
        → is_owner p x r ≡ true
        → j ≡ k)
    → AreDistinct (HashMap.insert k row m)
insert-AreDistinct k row m d own alone = record {
  keyed = λ j r h. elim (Bool-cases (text_eq k j)) [
    | inl e ↦ sym (ap (λ t. t.id) (some_eq (rw (get-insert, e) at h))) ∙ own ∙ (text_eq_iff k j).0 e
    | inr e ↦ d.keyed j r (rw (get-insert, e) at h)
  ];
  single = λ p x i j q r hi oi hj oj. elim (Bool-cases (text_eq k i)) [
    | inl ei ↦ elim (Bool-cases (text_eq k j)) [
      | inl ej ↦ sym ((text_eq_iff k i).0 ei) ∙ (text_eq_iff k j).0 ej
      | inr ej ↦
          let first = some_eq (rw (get-insert, ei) at hi) in
          let second : HashMap.get m j ≡ some r = rw (get-insert, ej) at hj in
          sym ((text_eq_iff k i).0 ei)
          ∙ sym (alone p x j r (ap (is_owner p x) first ∙ oi) second oj)
    ]
    | inr ei ↦
        let first : HashMap.get m i ≡ some q = rw (get-insert, ei) at hi in
        elim (Bool-cases (text_eq k j)) [
          | inl ej ↦
              let second = some_eq (rw (get-insert, ej) at hj) in
              alone p x i q (ap (is_owner p x) second ∙ oj) first oi ∙ (text_eq_iff k j).0 ej
          | inr ej ↦ d.single p x i j q r first oi (rw (get-insert, ej) at hj) oj
        ]
  ];
}

remove_there :
    (k j : Text) (m : HashMap OwnerRow) (r : OwnerRow)
    → HashMap.get (HashMap.remove k m) j ≡ some r
    → HashMap.get m j ≡ some r
remove_there k j m r h = elim (Bool-cases (text_eq k j)) [
  | inl e ↦ absurd (none_ne_some (rw (get-remove, e) at h))
  | inr e ↦ rw (get-remove, e) at h
]

remove-AreDistinct :
    (k : Text) (m : HashMap OwnerRow) → AreDistinct m → AreDistinct (HashMap.remove k m)
remove-AreDistinct k m d = record {
  keyed = λ j r h. d.keyed j r (remove_there k j m r h);
  single = λ p x i j q r hi oi hj oj.
      d.single p x i j q r (remove_there k i m q hi) oi (remove_there k j m r hj) oj;
}

owns_both : (p x : Text) (r : OwnerRow) → is_owner p x r ≡ true → (r.pod_id ≡ p) × (r.web_id ≡ x)
owns_both p x r h = ground (arith, text_eq_iff r.pod_id p, text_eq_iff r.web_id x)

-- The owners of a pod and a WebID after a write for `id` and `w`.
abbrev pub with_visibility : Text → Text → Option Bool → Text → Text → Option Bool → Option Bool
with_visibility id w v p x old = if text_eq id p && text_eq w x then v else old

update_found_lem :
    (owner_id id w : Text) (v : Bool) (o : Option (Text × OwnerRow)) (m : HashMap OwnerRow)
    → find_owner id w m ≡ o
    → AreDistinct m
    → HashMap.get m owner_id ≡ none
    → AreDistinct (update_found owner_id id w v o m)
      × ((p x : Text)
          → visibility p x (update_found owner_id id w v o m)
            ≡ with_visibility id w (some v) p x (visibility p x m))
unfolding update_found
update_found_lem owner_id id w v (some (k, r)) m e d fresh =
    let (there, owns) = find_value_sound (is_owner id w) m k r e in
    let (same_pod, same_id) = owns_both id w r owns in
    let d' =
      insert-AreDistinct k (record r { visible = v }) m d (d.keyed k r there)
        (λ p x j q own found owns'. d.single p x j k q r found owns' there own) in
    (
      d',
      λ p x.
          visibility-insert k (record r { visible = v }) m p x d'
            (λ q found. ap (is_owner p x) (some_eq (sym found ∙ there)))
          ∙ ap (λ b. if b then some v else visibility p x m)
              (ap (λ t. text_eq t p && text_eq r.web_id x) same_pod
                ∙ ap (λ t. text_eq id p && text_eq t x) same_id),
    )
update_found_lem owner_id id w v none m e d fresh =
    let d' =
      insert-AreDistinct owner_id (owner_row owner_id id w v) m d refl (λ p x j q own found owns.
        let (same_pod, same_id) = owns_both p x (owner_row owner_id id w v) own in
        cc (
          sym owns
          ∙ ap (λ t. is_owner t x q) (sym same_pod)
          ∙ ap (λ t. is_owner id t q) (sym same_id)
          ∙ find_value-none (is_owner id w) m j q e found)) in
    (
      d',
      λ p x.
          visibility-insert owner_id (owner_row owner_id id w v) m p x d'
            (λ q found. absurd (none_ne_some (sym fresh ∙ found))),
    )

-- `update_owner`, with a fresh identifier for the row that it may add, makes the WebID an owner of
-- the pod with the visibility that is given, changes no other owner of any pod, and keeps the rows
-- distinct.
pub update_owner_refines :
    (owner_id id w : Text) (v : Bool) (s : BasePodStore)
    → AreDistinct s.owners
    → HashMap.get s.owners owner_id ≡ none
    → AreDistinct (update_owner owner_id id w v s).owners
      × ((p x : Text)
          → visibility p x (update_owner owner_id id w v s).owners
            ≡ with_visibility id w (some v) p x (visibility p x s.owners))
unfolding update_owner
update_owner_refines owner_id id w v s d fresh =
    update_found_lem owner_id id w v (find_owner id w s.owners) s.owners refl d fresh

remove_found_lem :
    (id w : Text) (o : Option (Text × OwnerRow)) (m : HashMap OwnerRow)
    → find_owner id w m ≡ o
    → AreDistinct m
    → AreDistinct (remove_found o m)
      × ((p x : Text)
          → visibility p x (remove_found o m) ≡ with_visibility id w none p x (visibility p x m))
unfolding remove_found
remove_found_lem id w none m e d = (
  d,
  λ p x. elim (Bool-cases (text_eq id p && text_eq w x)) [
    | inl y ↦
        let (one, two) = (and-eq-true_iff _ _).0 y in
        rw y (
          ap (λ t. visibility t x m) (sym ((text_eq_iff id p).0 one))
          ∙ ap (λ t. visibility id t m) (sym ((text_eq_iff w x).0 two))
          ∙ (rw e refl))
    | inr y ↦ rw y refl
  ],
)
remove_found_lem id w (some (k, r)) m e d =
    let (there, owns) = find_value_sound (is_owner id w) m k r e in
    let (same_pod, same_id) = owns_both id w r owns in
    let at_key = ap (λ t. HashMap.remove t m) (d.keyed k r there) in
    let d' = remove-AreDistinct r.id m d in
    (
      d',
      λ p x.
          visibility-remove r.id r m p x d d' (ap (HashMap.get m) (d.keyed k r there) ∙ there)
          ∙ ap (λ b. if b then none else visibility p x m)
              (ap (λ t. text_eq t p && text_eq r.web_id x) same_pod
                ∙ ap (λ t. text_eq id p && text_eq t x) same_id),
    )

-- `remove_owner` takes the WebID from the owners of the pod, does nothing if it is none, changes
-- no other owner of any pod, and keeps the rows distinct.
pub remove_owner_refines :
    (id w : Text) (s : BasePodStore)
    → AreDistinct s.owners
    → AreDistinct (remove_owner id w s).owners
      × ((p x : Text)
          → visibility p x (remove_owner id w s).owners
            ≡ with_visibility id w none p x (visibility p x s.owners))
unfolding remove_owner
remove_owner_refines id w s d = remove_found_lem id w (find_owner id w s.owners) s.owners refl d

-- What the WebID of the settings adds.
abbrev pub with_first : Text → Option Text → Text → Text → Option Bool → Option Bool
with_first pod_id none p x old = old
with_first pod_id (some w) p x old = with_visibility pod_id w (some false) p x old

first_owner_lem :
    (owner_id pod_id : Text) (web_id : Option Text) (m : HashMap OwnerRow)
    → AreDistinct m
    → HashMap.get m owner_id ≡ none
    → ((k : Text) (r : OwnerRow) → HashMap.get m k ≡ some r → r.pod_id ≢ pod_id)
    → AreDistinct (first_owner owner_id pod_id web_id m)
      × ((p x : Text)
          → visibility p x (first_owner owner_id pod_id web_id m)
            ≡ with_first pod_id web_id p x (visibility p x m))
first_owner_lem owner_id pod_id none m d fresh new_pod = (d, λ p x. refl)
first_owner_lem owner_id pod_id (some w) m d fresh new_pod =
    let row = owner_row owner_id pod_id w false in
    let d' = insert-AreDistinct owner_id row m d refl (λ p x j q own found owns.
      absurd (new_pod j q found ((owns_both p x q owns).0 ∙ sym ((owns_both p x row own).0)))) in
    (
      d',
      λ p x.
          visibility-insert owner_id row m p x d'
            (λ q found. absurd (none_ne_some (sym fresh ∙ found))),
    )

-- A new pod, under identifiers that are fresh, has the WebID of its settings for its only owner,
-- and not visibly, or none if the settings name none; the owners of all other pods are kept.
pub create_refines :
    (pod_id owner_id account_id : Text) (settings : PodSettings) (s : BasePodStore)
    → AreDistinct s.owners
    → HashMap.get s.owners owner_id ≡ none
    → ((k : Text) (r : OwnerRow) → HashMap.get s.owners k ≡ some r → r.pod_id ≢ pod_id)
    → let s' = (create pod_id owner_id account_id settings s).1 in
      AreDistinct s'.owners
      × ((p x : Text)
          → visibility p x s'.owners
            ≡ with_first pod_id settings.web_id p x (visibility p x s.owners))
unfolding create
create_refines pod_id owner_id account_id settings s d fresh new_pod =
    first_owner_lem owner_id pod_id settings.web_id s.owners d fresh new_pod
