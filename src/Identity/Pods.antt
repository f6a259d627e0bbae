-- ===== src/Identity/Pods.antt =====
-- identity/src/pod.rs, `BasePodStore`: pods, and the owners of each, found by a scan of all rows. A
-- URL is its text, the identifiers that are drawn are arguments, and each operation is one step.
pub mod Owners
pub mod Refinement
use solid_community_rs.Prelude.{
  Bool, true, false, ◌&&◌, List, [], ◌∷◌, Option, none, some, map, filter, Text, text_eq,
  if◌then◌else◌,
}
use mathlib.Core.Option
use solid_community_rs.Prelude.HashMap
use solid_community_rs.Prelude.HashMap.{HashMap}
use solid_community_rs.Prelude.HashMap.Scan.{find_value}

pub record PodSettings : Type 0 where
  pub base : Text
  pub web_id : Option Text
  pub oidc_issuer : Option Text

pub record PodInfo : Type 0 where
  pub id : Text
  pub base_url : Text
  pub account_id : Text

pub record PodOwner : Type 0 where
  pub web_id : Text
  pub visible : Bool

pub record PodRow : Type 0 where
  pub id : Text
  pub base_url : Text
  pub account_id : Text

pub record OwnerRow : Type 0 where
  pub id : Text
  pub pod_id : Text
  pub web_id : Text
  pub visible : Bool

pub record BasePodStore : Type 0 where
  pub pods : HashMap PodRow
  pub owners : HashMap OwnerRow

unfoldable pub new : BasePodStore
new = record { pods = HashMap.empty; owners = HashMap.empty }

-- The row that `insert` gets for an owner.
abbrev pub owner_row : Text → Text → Text → Bool → OwnerRow
owner_row owner_id pod_id web_id visible = record {
  id = owner_id;
  pod_id = pod_id;
  web_id = web_id;
  visible = visible;
}

-- `if let Some(web_id) = settings.web_id`
abbrev pub first_owner : Text → Text → Option Text → HashMap OwnerRow → HashMap OwnerRow
first_owner owner_id pod_id none owners = owners
first_owner owner_id pod_id (some web_id) owners =
    HashMap.insert owner_id (owner_row owner_id pod_id web_id false) owners

-- `pod_id` and `owner_id` are the fresh UUIDs; the answer is the first.
unfoldable pub create : Text → Text → Text → PodSettings → BasePodStore → Text × BasePodStore
create pod_id owner_id account_id settings s = (
  pod_id,
  record {
    pods =
        HashMap.insert pod_id
          (record { id = pod_id; base_url = settings.base; account_id = account_id }) s.pods;
    owners = first_owner owner_id pod_id settings.web_id s.owners;
  },
)

abbrev pub info : PodRow → PodInfo
info r = record { id = r.id; base_url = r.base_url; account_id = r.account_id }

unfoldable pub get : Text → BasePodStore → Option PodInfo
get id s = Option.map info (HashMap.get s.pods id)

abbrev pub pod_rows : BasePodStore → List PodRow
pod_rows s = map (λ e. e.1) (HashMap.entries s.pods)

unfoldable pub find_pods : Text → BasePodStore → List PodInfo
find_pods account_id s = map info (filter (λ r. text_eq r.account_id account_id) (pod_rows s))

unfoldable pub find_by_base_url : Text → BasePodStore → Option PodInfo
unfolding find_value
find_by_base_url base_url s =
    Option.map (λ e. info e.1)
      (find_value (λ r. text_eq r.base_url base_url) (HashMap.entries s.pods))

abbrev pub owner_rows : BasePodStore → List OwnerRow
owner_rows s = map (λ e. e.1) (HashMap.entries s.owners)

-- The owners of a pod, in the order of the rows.
abbrev pub owners_of : Text → List OwnerRow → List PodOwner
owners_of id rows =
    map (λ r. let o : PodOwner = record { web_id = r.web_id; visible = r.visible } in o)
      (filter (λ r. text_eq r.pod_id id) rows)

abbrev pub unless_empty : List PodOwner → Option (List PodOwner)
unless_empty [] = none
unless_empty (o ∷ os) = some (o ∷ os)

unfoldable pub get_owners : Text → BasePodStore → Option (List PodOwner)
get_owners id s = unless_empty (owners_of id (owner_rows s))

abbrev pub is_owner : Text → Text → OwnerRow → Bool
is_owner id web_id r = text_eq r.pod_id id && text_eq r.web_id web_id

-- `.find(|r| r.pod_id == id && &r.web_id == web_id)`, with the key of the row.
abbrev pub find_owner : Text → Text → HashMap OwnerRow → Option (Text × OwnerRow)
find_owner id web_id owners = find_value (is_owner id web_id) (HashMap.entries owners)

-- The two branches of `update_owner`; `values_mut` changes the row that was found in place.
unfoldable pub update_found :
    Text → Text → Text → Bool → Option (Text × OwnerRow) → HashMap OwnerRow → HashMap OwnerRow
update_found owner_id id web_id visible (some (k, r)) owners =
    HashMap.insert k (record r { visible = visible }) owners
update_found owner_id id web_id visible none owners =
    HashMap.insert owner_id (owner_row owner_id id web_id visible) owners

unfoldable pub update_owner : Text → Text → Text → Bool → BasePodStore → BasePodStore
unfolding update_found
update_owner owner_id id web_id visible s = record s {
  owners = update_found owner_id id web_id visible (find_owner id web_id s.owners) s.owners;
}

-- The row is removed by the identifier that it holds.
unfoldable pub remove_found : Option (Text × OwnerRow) → HashMap OwnerRow → HashMap OwnerRow
remove_found none owners = owners
remove_found (some (k, r)) owners = HashMap.remove r.id owners

unfoldable pub remove_owner : Text → Text → BasePodStore → BasePodStore
unfolding remove_found
remove_owner id web_id s = record s {
  owners = remove_found (find_owner id web_id s.owners) s.owners;
}
