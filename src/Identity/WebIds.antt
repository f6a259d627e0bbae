-- ===== src/Identity/WebIds.antt =====
-- identity/src/webid.rs: which WebIDs belong to which accounts. A WebID is the text of its URL.
use solid_community_rs.Prelude.{
  ◌≡◌, ap, Bool, false, ◌&&◌, ◌||◌, List, [], ◌∷◌, Option, none, Text, text_eq, is_some, map,
  filter,
}
use solid_community_rs.Prelude.HashMap
use solid_community_rs.Prelude.HashMap.{HashMap, Pairs, entries-insert}

pub record WebIdLink : Type 0 where
  pub id : Text
  pub web_id : Text
  pub account_id : Text

pub record BaseWebIdStore : Type 0 where
  pub links : HashMap WebIdLink

unfoldable pub new : BaseWebIdStore
new = record { links = HashMap.empty }

-- `.any(|l| &l.web_id == web_id && l.account_id == account_id)`
unfoldable pub any_link : Text → Text → Pairs WebIdLink → Bool
any_link web_id account_id [] = false
any_link web_id account_id ((_, l) ∷ rest) =
    (text_eq l.web_id web_id && text_eq l.account_id account_id) || any_link web_id account_id rest

unfoldable pub is_linked : Text → Text → BaseWebIdStore → Bool
unfolding any_link
is_linked web_id account_id s = any_link web_id account_id (HashMap.entries s.links)

-- `id` is the fresh UUID.
unfoldable pub create : Text → Text → Text → BaseWebIdStore → WebIdLink × BaseWebIdStore
create id web_id account_id s =
    let link : WebIdLink = record { id = id; web_id = web_id; account_id = account_id } in
    (link, record { links = HashMap.insert id link s.links })

unfoldable pub get : Text → BaseWebIdStore → Option WebIdLink
get link_id s = HashMap.get s.links link_id

unfoldable pub find_by_account : Text → BaseWebIdStore → List WebIdLink
find_by_account account_id s =
    filter (λ l. text_eq l.account_id account_id) (map (λ e. e.1) (HashMap.entries s.links))

-- `true` for `Ok(())`, and `false` for the error that nothing was found.
unfoldable pub delete : Text → BaseWebIdStore → Bool × BaseWebIdStore
delete link_id s =
    (is_some (HashMap.get s.links link_id), record { links = HashMap.remove link_id s.links })

-- After a link was created under a fresh identifier, a WebID is linked to an account exactly if
-- they are those of the new link or were linked before.
is_linked-create :
    (id web_id account_id : Text) (s : BaseWebIdStore) (w a : Text)
    → get id s ≡ none
    → is_linked w a (create id web_id account_id s).1
      ≡ ((text_eq web_id w && text_eq account_id a) || is_linked w a s)
unfolding is_linked create get
is_linked-create id web_id account_id s w a fresh =
    ap (any_link w a) (entries-insert s.links id _ fresh)
