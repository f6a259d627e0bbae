-- ===== src/ServerCore/Tests.antt =====
-- The theorems on server-core at concrete stores and requests.
use solid_community_rs.Prelude.{
  ℕ, ◌≡◌, ◌≢◌, ◌≤◌, ◌↔◌, refl, sym, ◌∙◌, ap, Bool, true, false, ◌&&◌, ◌||◌, List, [], ◌∷◌, ◌++◌,
  Option, none, some, arith, Text, text, text_eq, slash, starts_with, trim_end_matches, count, ltb,
  leb, ◌==◌, if◌then◌else◌, Any, All,
}
use solid_community_rs.Prelude.HashMap
use solid_community_rs.Prelude.Split.{split}
use solid_community_rs.HttpTypes.Error
use solid_community_rs.HttpTypes.Error.{SolidError}
use solid_community_rs.HttpTypes.Operation.{read, write}
use solid_community_rs.ServerCore.Http.{
  HeaderValues, Request, Response, header, location, content_type, status_only,
}
use solid_community_rs.ServerCore.Accept.{accept_satisfied, base, Accepts, accept_satisfied_iff}
use solid_community_rs.ServerCore.Store
use solid_community_rs.ServerCore.Store.{
  Entry, LdpStore, auto_container, new, key, get, exists, put, delete, is_container, store_key,
  turtle,
}
use solid_community_rs.ServerCore.Store.Access.{written}
use solid_community_rs.ServerCore.Store.Concurrent
use solid_community_rs.ServerCore.Store.Concurrent.{
  Pending, System, Reach, ReachByPuts, start, store_entry, Reach-IsWellFormed,
}
use solid_community_rs.ServerCore.Store.Concurrent.Closure.{IsClosed, ReachByPuts-IsClosed}
use solid_community_rs.ServerCore.Store.Invariant.{IsWellFormed}
use solid_community_rs.ServerCore.Store.Refinement
use solid_community_rs.ServerCore.Store.Refinement.{Shallow, view, calls, all_meant, store_refines}
use solid_community_rs.ServerCore.Handlers.{
  resolve_path, child_key, refuses, header_text, request_type, handle_get, handle_head, handle_put,
  handle_post,
}
use solid_community_rs.ServerCore.Handlers.Reads.{Agree, served, head_agrees_with_get}
use solid_community_rs.ServerCore.Handlers.Writes.{get_after_put, get_after_post}
use solid_community_rs.ServerCore.Handlers.Safety.{IsSound}
use solid_community_rs.ServerCore.Middleware.{extract_credentials}
use solid_community_rs.ServerCore.Pipeline.{
  ldp_router, AuthzState, access_map, PermissionMap, requested_mode, pipeline, pass_through,
  pass_through_reader, pass_through_authorizer, serve,
}
use solid_community_rs.ServerCore.Pipeline.Access.{writes_are_authorized}
use solid_community_rs.ServerCore.Pipeline.Serving.{serve-IsSound, reads_never_fail}

abbrev visible : Text → Bool
visible [] = true
visible (c ∷ t) = ((c == 9) || (leb 32 c && ltb c 127)) && visible t

abbrev read_value : Text → Option Text
read_value v = if visible v then some v else none

read_value_valid : (v t : Text) → read_value v ≡ some t → visible t ≡ true
read_value_valid v t h = ground arith

-- Header values of printable ASCII.
abbrev ascii : HeaderValues
ascii = record {
  to_str = read_value;
  is_valid = visible;
  to_str_valid = read_value_valid;
  turtle_valid = refl;
  octets_valid = refl;
}

abbrev card : Text
card = text "/alice/card"

abbrev alice : Text
alice = text "/alice/"

abbrev body : List ℕ
body = 60 ∷ 97 ∷ 62 ∷ []

-- The store with one document in a container.
abbrev one_card : LdpStore
one_card = (put card body turtle new).1

keys_differ : key alice ≢ key card
unfolding key
keys_differ h = cc h

alice_there : get alice one_card ≡ some auto_container
unfolding get key put new Store.ensure_ancestors HashMap.get HashMap.insert HashMap.empty
alice_there = refl

trims_to_card : trim_end_matches (key card) slash ≡ text "/alice" ++ slash ∷ text "card"
unfolding key trim_end_matches
trims_to_card = refl

few_slashes : count slash (text "/alice") ≤ 98
unfolding count
few_slashes = omega arith

not_yet_alice : get alice new ≡ none
unfolding get key new text_eq HashMap.get HashMap.insert HashMap.empty
not_yet_alice = refl

abbrev weighted : Text
weighted = text "application/json, text/*;q=0.5"

accept_satisfied_iff_example :
    (accept_satisfied weighted turtle ≡ true)
    ↔ Any (λ t. Accepts (base turtle) (base t)) (split weighted b',')
accept_satisfied_iff_example = accept_satisfied_iff weighted turtle

accepts_major : accept_satisfied weighted turtle ≡ true
unfolding accept_satisfied
accepts_major = refl

accepts_no_prefix : accept_satisfied (text "text/turt") turtle ≡ false
unfolding accept_satisfied
accepts_no_prefix = refl

-- A request for the card, with a content type.
abbrev card_request : Text → Option (List ℕ) → Request
card_request method content = record {
  method = method;
  path = card;
  wildcard = some (text "alice/card");
  headers = λ name. if text_eq name content_type then some turtle else none;
  body = content;
}

abbrev put_request : Request
put_request = card_request (text "PUT") (some body)

abbrev get_request : Request
get_request = card_request (text "GET") (some [])

head_agrees_with_get_example :
    let (g, s') = handle_get ascii get_request one_card in
    let (h, s'') = handle_head ascii get_request one_card in
    Agree ascii h g × (s' ≡ one_card) × (s'' ≡ one_card)
head_agrees_with_get_example = head_agrees_with_get ascii get_request one_card

accepts_all :
    refuses (header_text ascii get_request (text "accept")) (request_type ascii put_request) ≡ false
unfolding header_text refuses text_eq
accepts_all = refl

get_after_put_example :
    let (r, s') = handle_put ascii put_request new in
    (r.status ≡ (
      if exists (resolve_path put_request.wildcard) new
        || text_eq (slash ∷ []) (resolve_path put_request.wildcard)
      then 204
      else 201))
    × ((handle_get ascii get_request s').0
        ≡ served ascii body
            (request_type ascii put_request)
            (is_container (resolve_path put_request.wildcard)))
get_after_put_example = get_after_put ascii put_request get_request body new refl refl accepts_all

abbrev slug : Text
slug = text "6f1c"

-- The path of the child without its first slash, as a route extracts it.
abbrev child_tail : Text
child_tail = text "alice/card/6f1c"

abbrev get_child : Request
get_child = record get_request { wildcard = some child_tail }

child_of_card : child_key slug put_request ≡ slash ∷ child_tail
unfolding child_key resolve_path trim_end_matches starts_with
child_of_card = refl

single_slash : starts_with child_tail (slash ∷ []) ≡ false
unfolding starts_with
single_slash = refl

get_after_post_example :
    let (r, s') = handle_post ascii slug put_request one_card in
    (r.status ≡ (if visible (slash ∷ child_tail) then 201 else 500))
    × (header location r.headers
        ≡ (if visible (slash ∷ child_tail) then some (slash ∷ child_tail) else none))
    × (slash ∷ child_tail
        ≡ trim_end_matches (resolve_path put_request.wildcard) slash ++ slash ∷ slug)
    × ((handle_get ascii get_child s').0
        ≡ served ascii body (request_type ascii put_request) (is_container (slash ∷ child_tail)))
unfolding header_text
get_after_post_example =
    get_after_post ascii slug put_request get_child body one_card child_tail refl child_of_card
      single_slash refl accepts_all

-- A POST to a path with three slashes, and a GET of its `Location`.
abbrev post_doubled : Request
post_doubled = record put_request { wildcard = some (text "//x") }

doubled_child : child_key slug post_doubled ≡ text "//x/6f1c"
unfolding child_key resolve_path trim_end_matches
doubled_child = refl

doubled_lost : resolve_path (some (text "/x/6f1c")) ≡ text "/x/6f1c"
unfolding resolve_path
doubled_lost = refl

abbrev unrouted : Response
unrouted = status_only 405

asks_read : requested_mode (text "GET") ≡ read
unfolding requested_mode text_eq
asks_read = refl

-- A reader that fails.
abbrev unreadable : AuthzState
unreadable = record { permission_reader = λ _ _. none; authorizer = λ _ _ _. none }

abbrev refusal : SolidError
refusal = Error.forbidden (text "no")

-- An authorizer that denies.
abbrev denying : AuthzState
denying = record {
  permission_reader = λ _ _. some HashMap.empty;
  authorizer = λ _ _ _. some refusal;
}

no_card : get card new ≡ none
unfolding get key new text_eq HashMap.get HashMap.insert HashMap.empty
no_card = refl

card_served :
    get card (pipeline ascii pass_through unrouted slug put_request new).1
    ≡ some (written card body turtle)
unfolding get key new put pipeline ldp_router handle_put resolve_path header_text
    pass_through_reader pass_through_authorizer Store.ensure_ancestors HashMap.get HashMap.insert
    HashMap.empty text_eq is_container
card_served = refl

put_writes : (pipeline ascii pass_through unrouted slug put_request new).1 ≢ new
put_writes h =
    let none_is_some : none ≡ some (written card body turtle) =
      sym no_card ∙ ap (λ s. get card s) (sym h) ∙ card_served in
    cc none_is_some

writes_are_authorized_example :
    (m : PermissionMap) × (pass_through_reader
        (extract_credentials ascii put_request)
        (access_map put_request)
      ≡ some m)
    × (pass_through.authorizer (extract_credentials ascii put_request) (access_map put_request) m
        ≡ none)
    × (requested_mode put_request.method ≡ write)
writes_are_authorized_example =
    writes_are_authorized ascii pass_through unrouted slug put_request new put_writes

abbrev requests : List (Text × Request)
requests = (slug, put_request) ∷ (slug, get_request) ∷ []

serve-IsSound_example : IsSound ascii (serve ascii pass_through unrouted requests new)
serve-IsSound_example = serve-IsSound ascii unrouted pass_through requests

reads_never_fail_example :
    let s = serve ascii pass_through unrouted requests new in
    ((handle_get ascii get_request s).0.status ≢ 500)
    × ((handle_head ascii get_request s).0.status ≢ 500)
reads_never_fail_example = reads_never_fail ascii unrouted pass_through requests get_request

abbrev some_calls : List Refinement.Call
some_calls = Refinement.store card body turtle ∷ Refinement.look alice ∷ Refinement.remove card ∷ []

some_calls-Shallow : All Shallow some_calls
unfolding key trim_end_matches count
some_calls-Shallow = (omega arith, (tt, (tt, tt)))

store_refines_example :
    ((calls some_calls new).0 ≡ (all_meant some_calls (view new)).0)
    × (view (calls some_calls new).1 ≡ (all_meant some_calls (view new)).1)
store_refines_example = store_refines some_calls new some_calls-Shallow

abbrev pending_card : Pending
pending_card = record { path = card; body = body; content_type = turtle }

abbrev begun : System
begun = record { store = Store.ensure_ancestors (key card) new; waiting = pending_card ∷ [] }

-- The container is deleted before the document is stored.
abbrev orphaned : System
orphaned = record {
  store = (store_entry pending_card (delete alice begun.store).1).1;
  waiting = [];
}

orphaned_reached : Reach orphaned
orphaned_reached =
    Concurrent.later _ _
      (Concurrent.later _ _
        (Concurrent.later _ _ Concurrent.initial (Concurrent.begin pending_card new []))
        (Concurrent.remove alice begun.store (pending_card ∷ [])))
      (Concurrent.finish pending_card (delete alice begun.store).1 [] [])

Reach-IsWellFormed_example : IsWellFormed orphaned.store
Reach-IsWellFormed_example = Reach-IsWellFormed orphaned orphaned_reached

orphan : (exists card orphaned.store ≡ true) × (exists alice orphaned.store ≡ false)
unfolding exists key delete new store_entry Store.ensure_ancestors HashMap.get HashMap.insert
    HashMap.remove HashMap.empty text_eq
orphan = (refl, refl)

abbrev both_done : System
both_done = record { store = (store_entry pending_card begun.store).1; waiting = [] }

both_done_reached : ReachByPuts both_done
both_done_reached =
    Concurrent.further _ _
      (Concurrent.further _ _ Concurrent.untouched (Concurrent.begin pending_card new []) tt)
      (Concurrent.finish pending_card begun.store [] []) tt

ReachByPuts-IsClosed_example : IsClosed both_done
ReachByPuts-IsClosed_example = ReachByPuts-IsClosed both_done both_done_reached
