-- ===== src/Identity/Tests.antt =====
-- The theorems on identity at concrete stores.
use solid_community_rs.Prelude.{
  ◌+◌, ◌≡◌, ◌≢◌, refl, ap, List, [], ◌∷◌, none, some, arith, Text, text, text_eq, length, replicate,
  ℕ, zero, suc, Any, inl, inr, sym, ◌∙◌, true, if◌then◌else◌, All,
}
use solid_community_rs.Prelude.HashMap
use solid_community_rs.Identity.WebIds
use solid_community_rs.Identity.Cookies
use solid_community_rs.Identity.Cookies.{BaseCookieStore, get_after_generate, get_after_refresh}
use solid_community_rs.Identity.Credentials
use solid_community_rs.Identity.Credentials.{
  BaseClientCredentialsStore, IsIndexed, new-IsIndexed, create-IsIndexed, delete-IsIndexed,
}
use solid_community_rs.Identity.Credentials.Secret.{
  IsByte, IsUuid, IsHexDigit, bytes_of, read_bytes, generate_secret, generate_secret_lem,
}
use solid_community_rs.Identity.Credentials.Lookup.{find_after_create}
use solid_community_rs.Prelude.HashMap.{get-empty}
use solid_community_rs.Identity.Pods
use solid_community_rs.Identity.Pods.{OwnerRow, BasePodStore, PodSettings}
use solid_community_rs.Identity.Pods.Owners.{AreDistinct, visibility}
use solid_community_rs.Identity.Pods.Refinement.{
  with_visibility, with_first, new-AreDistinct, create_refines, update_owner_refines,
  remove_owner_refines,
}
use solid_community_rs.Identity.Accounts
use solid_community_rs.Identity.Accounts.{AccountRow, BaseAccountStore, usize_values}
use solid_community_rs.Identity.Accounts.Expiry.{Leaves, PrunesFrom, abandoned_account_expires}
use solid_community_rs.Identity.Accounts.Survival.{
  Operation, decrement, read_setting, register, Spares, HasLogin, run, linked_account_survives,
}

abbrev alice : Text
alice = text "alice"

abbrev c : Text
c = text "c"

abbrev jar : BaseCookieStore
jar = Cookies.new 100

abbrev one_cookie : BaseCookieStore
one_cookie = (Cookies.generate 10 c alice jar).1

abbrev label : Text
label = text "bot"

abbrev id1 : Text
id1 = text "1"

abbrev id2 : Text
id2 = text "22"

abbrev web_id : Text
web_id = text "http://a.org/#me"

abbrev one_token : BaseClientCredentialsStore
one_token = (Credentials.create id1 c label web_id alice Credentials.new).1

id1_fresh : Credentials.get id1 Credentials.new ≡ none
unfolding Credentials.get Credentials.new HashMap.get HashMap.empty
id1_fresh = refl

one_token-IsIndexed : IsIndexed one_token
one_token-IsIndexed =
    create-IsIndexed id1 c label web_id alice Credentials.new new-IsIndexed id1_fresh

delete-IsIndexed_example : IsIndexed (Credentials.delete id1 one_token).1
delete-IsIndexed_example = delete-IsIndexed id1 one_token one_token-IsIndexed

find_after_create_example :
    let (creds, s') = Credentials.create id1 c label web_id alice Credentials.new in
    Credentials.find_by_label label s'
    ≡ (if text_eq label label then some creds else Credentials.find_by_label label Credentials.new)
find_after_create_example =
    find_after_create id1 c label web_id alice Credentials.new label new-IsIndexed id1_fresh

ids_differ : id1 ≢ id2
ids_differ h = omega (arith, ap length h)

abbrev registered : BaseAccountStore Text
registered =
    (Accounts.increment_login_count alice (Accounts.create 0 alice (Accounts.new 1800)).1).1

registered-HasLogin : HasLogin alice 1 registered
unfolding Accounts.increment_login_count Accounts.create Accounts.new HashMap.get HashMap.insert
    HashMap.empty text_eq
registered-HasLogin = record {
  row = record { id = alice; linked_logins_count = 1; settings = HashMap.empty; created_at = 0 };
  there = refl;
  low = omega arith;
  high = omega arith;
}

abbrev later_operations : List (Operation Text)
later_operations = decrement alice ∷ register 9000 c ∷ read_setting 9000 alice c ∷ []

spared : All (Spares alice) later_operations
unfolding text_eq
spared = (tt, (refl, (tt, tt)))

linked_account_survives_example :
    HasLogin alice (1 + length later_operations) (run later_operations registered)
linked_account_survives_example =
    linked_account_survives later_operations alice 1 registered (omega arith) spared
      registered-HasLogin

abbrev me : Text
me = text "http://a.org/#me"

no_link : WebIds.get id1 WebIds.new ≡ none
unfolding WebIds.get WebIds.new HashMap.get HashMap.empty
no_link = refl

abbrev settings : PodSettings
settings = record { base = text "http://a.org/pod/"; web_id = some me; oidc_issuer = none }

no_owner : HashMap.get (Pods.new).owners id2 ≡ none
unfolding Pods.new HashMap.get HashMap.empty
no_owner = refl

unused_pod : (k : Text) (r : OwnerRow) → HashMap.get (Pods.new).owners k ≡ some r → r.pod_id ≢ id1
unfolding Pods.new
unused_pod k r h = cc (sym (get-empty k) ∙ h)

create_refines_example :
    let s' = (Pods.create id1 id2 alice settings Pods.new).1 in
    AreDistinct s'.owners
    × ((p x : Text)
        → visibility p x s'.owners
          ≡ with_first id1 settings.web_id p x (visibility p x (Pods.new).owners))
create_refines_example =
    create_refines id1 id2 alice settings Pods.new new-AreDistinct no_owner unused_pod

abbrev one_pod : BasePodStore
one_pod = (Pods.create id1 id2 alice settings Pods.new).1

one_pod-AreDistinct : AreDistinct one_pod.owners
one_pod-AreDistinct =
    (create_refines id1 id2 alice settings Pods.new new-AreDistinct no_owner unused_pod).0

owner_id_unused : HashMap.get one_pod.owners c ≡ none
unfolding Pods.create Pods.new HashMap.get HashMap.empty HashMap.insert text_eq
owner_id_unused = refl

update_owner_refines_example :
    AreDistinct (Pods.update_owner c id1 me true one_pod).owners
    × ((p x : Text)
        → visibility p x (Pods.update_owner c id1 me true one_pod).owners
          ≡ with_visibility id1 me (some true) p x (visibility p x one_pod.owners))
update_owner_refines_example =
    update_owner_refines c id1 me true one_pod one_pod-AreDistinct owner_id_unused

remove_owner_refines_example :
    AreDistinct (Pods.remove_owner id1 me one_pod).owners
    × ((p x : Text)
        → visibility p x (Pods.remove_owner id1 me one_pod).owners
          ≡ with_visibility id1 me none p x (visibility p x one_pod.owners))
remove_owner_refines_example = remove_owner_refines id1 me one_pod one_pod-AreDistinct

abbrev accounts : BaseAccountStore Text
accounts = Accounts.new 1800

abbrev idle_operations : List (Operation Text)
idle_operations = decrement alice ∷ register 2000 c ∷ read_setting 2500 alice c ∷ []

idle_operations-Leaves : All (Leaves alice) idle_operations
unfolding text_eq
idle_operations-Leaves = (tt, (refl, (tt, tt)))

idle_prunes : Any (PrunesFrom (100 + accounts.expiry)) idle_operations
unfolding Accounts.new
idle_prunes = inr (inl (omega arith))

abandoned_account_expires_example :
    HashMap.get (run idle_operations (Accounts.create 100 alice accounts).1).inner alice ≡ none
abandoned_account_expires_example =
    abandoned_account_expires idle_operations alice 100 accounts idle_operations-Leaves idle_prunes

abbrev uuids : List (List ℕ)
uuids = replicate 8 (replicate 16 255)

bytes-IsByte : (n : ℕ) → All IsByte (replicate n 255)
bytes-IsByte zero = tt
bytes-IsByte (suc n) = (omega arith, bytes-IsByte n)

uuids-IsUuid : (n : ℕ) → All IsUuid (replicate n (replicate 16 255))
uuids-IsUuid zero = tt
uuids-IsUuid (suc n) = ((refl, bytes-IsByte 16), uuids-IsUuid n)

generate_secret_lem_example :
    (length (generate_secret uuids) ≡ 256)
    × All IsHexDigit (generate_secret uuids)
    × (read_bytes (generate_secret uuids) ≡ bytes_of uuids)
generate_secret_lem_example = generate_secret_lem uuids refl (uuids-IsUuid 8)
