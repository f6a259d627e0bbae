-- ===== src/ServerCore/Store/Refinement.antt =====
-- The store refines an abstract one, a function from normalised keys, whose `put` is stated by the
-- containers of a key and not by a loop.
use solid_community_rs.Prelude.{
  ℕ, ◌≤◌, ◌≡◌, refl, ap, ◌∙◌, Bool, true, false, not, ◌||◌, List, [], ◌∷◌, Option, none, some, Text,
  text_eq, slash, count, trim_end_matches, is_some, unwrap_or, All, ends_with, if◌then◌else◌,
}
use mathlib.Core.Path.{fun_ext}
use solid_community_rs.Prelude.HashMap
use solid_community_rs.Prelude.HashMap.{get-remove}
use solid_community_rs.ServerCore.Store.{
  Entry, LdpStore, auto_container, key, get, exists, put, delete, is_container,
}
use solid_community_rs.ServerCore.Store.Ancestors.{or_auto}
use solid_community_rs.ServerCore.Store.Containers.{is_container_of, member-written_keys_eq}
use solid_community_rs.ServerCore.Store.Access.{written, get-put, put_created}

abbrev pub Resources : Type 0
Resources = Text → Option Entry

abbrev pub view : LdpStore → Resources
view s j = HashMap.get s.inner j

-- The containers that are missing appear, empty, and the resource is replaced.
abbrev pub with_resource : Text → Entry → Resources → Resources
with_resource k e m j =
    if text_eq k j
    then some e
    else if is_container_of k j
    then some (unwrap_or (m j) auto_container)
    else m j

abbrev pub without_resource : Text → Resources → Resources
without_resource k m j = if text_eq k j then none else m j

pub data Call : Type 0 where
  look : Text → Call
  test : Text → Call
  store : Text → List ℕ → Text → Call
  remove : Text → Call

pub data Answer : Type 0 where
  entry : Option Entry → Answer
  flag : Bool → Answer

abbrev pub call : Call → LdpStore → Answer × LdpStore
call (look p) s = (entry (get p s), s)
call (test p) s = (flag (exists p s), s)
call (store p body type) s = let (b, s') = put p body type s in (flag b, s')
call (remove p) s = let (b, s') = delete p s in (flag b, s')

-- What the calls mean for the abstract store.
abbrev pub meant : Call → Resources → Answer × Resources
meant (look p) m = (entry (m (key p)), m)
meant (test p) m = (flag (is_some (m (key p))), m)
meant (store p body type) m = (
  flag (not (is_some (m (key p)) || text_eq (slash ∷ []) (key p))),
  with_resource (key p)
      (record { body = body; content_type = type; is_container = ends_with (key p) slash }) m,
)
meant (remove p) m = (flag (is_some (m (key p))), without_resource (key p) m)

pub calls : List Call → LdpStore → List Answer × LdpStore
calls [] s = ([], s)
calls (c ∷ cs) s = let (a, s') = call c s in let (rest, s'') = calls cs s' in (a ∷ rest, s'')

pub all_meant : List Call → Resources → List Answer × Resources
all_meant [] m = ([], m)
all_meant (c ∷ cs) m =
    let (a, m') = meant c m in let (rest, m'') = all_meant cs m' in (a ∷ rest, m'')

-- The key that is put has at most 99 slashes, those at its end not counted.
abbrev pub Shallow : Call → Type 0
Shallow (store p _ _) = count slash (trim_end_matches (key p) slash) ≤ 99
Shallow _ = Unit

or_auto_lem :
    (b : Bool) (o : Option Entry)
    → or_auto b o ≡ (if b then some (unwrap_or o auto_container) else o)
or_auto_lem true none = refl
or_auto_lem true (some e) = refl
or_auto_lem false none = refl
or_auto_lem false (some e) = refl

view-put :
    (path : Text) (body : List ℕ) (content_type : Text) (s : LdpStore) (j : Text)
    → count slash (trim_end_matches (key path) slash) ≤ 99
    → view (put path body content_type s).1 j
      ≡ with_resource (key path) (written path body content_type) (view s) j
view-put path body content_type s j few =
    get-put path body content_type s j
    ∙ ap (λ o. if text_eq (key path) j then some (written path body content_type) else o)
        (ap (λ b. or_auto b (view s j)) (member-written_keys_eq path j few)
          ∙ or_auto_lem (is_container_of (key path) j) (view s j))

call-meant :
    (c : Call) (s : LdpStore)
    → Shallow c
    → ((call c s).0 ≡ (meant c (view s)).0) × (view (call c s).1 ≡ (meant c (view s)).1)
unfolding get exists delete is_container
call-meant (look p) s few = (refl, refl)
call-meant (test p) s few = (refl, refl)
call-meant (store p body type) s few =
    (ap flag (put_created p body type s), fun_ext (λ j. view-put p body type s j few))
call-meant (remove p) s few = (refl, fun_ext (λ j. get-remove s.inner (key p) j))

-- Whatever calls are made of the store, they are answered as by the abstract store, and the store
-- holds the resources that the abstract one holds, so long as no key that is put has more than 99
-- slashes before its end.
pub store_refines :
    (cs : List Call) (s : LdpStore)
    → All Shallow cs
    → ((calls cs s).0 ≡ (all_meant cs (view s)).0)
      × (view (calls cs s).1 ≡ (all_meant cs (view s)).1)
unfolding calls all_meant
store_refines [] s few = (refl, refl)
store_refines (c ∷ cs) s few =
    let (answer, next) = call-meant c s few.0 in
    let (answers, last) = store_refines cs (call c s).1 few.1 in
    (
      ap (λ a. a ∷ (calls cs (call c s).1).0) answer
          ∙ ap (λ l. (meant c (view s)).0 ∷ l) (answers ∙ ap (λ m. (all_meant cs m).0) next),
      last ∙ ap (λ m. (all_meant cs m).1) next,
    )
