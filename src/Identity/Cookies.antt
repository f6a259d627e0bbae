-- ===== src/Identity/Cookies.antt =====
-- identity/src/account.rs, `BaseCookieStore`: cookies that stand for an account until they expire.
-- Instants and durations are natural numbers; an operation reads the clock once, as `now`, and the
-- lock is held for the whole of it.
use solid_community_rs.Prelude.{
  ℕ, ◌+◌, ◌≤◌, ◌≡◌, refl, Bool, ◌&&◌, inl, inr, Option, none, some, arith, Text, text_eq, ltb,
  is_some, Bool-cases, Option-cases, if◌then◌else◌,
}
use solid_community_rs.Prelude.HashMap
use solid_community_rs.Prelude.HashMap.{HashMap, filter_value, get-insert, get-remove, get-retain}

pub record CookieEntry : Type 0 where
  pub account_id : Text
  pub expires_at : ℕ

pub record BaseCookieStore : Type 0 where
  pub inner : HashMap CookieEntry
  pub ttl : ℕ

unfoldable pub new : ℕ → BaseCookieStore
new ttl = record { inner = HashMap.empty; ttl = ttl }

unfoldable pub prune : ℕ → BaseCookieStore → BaseCookieStore
prune now s = record s { inner = HashMap.retain (λ _ e. ltb now e.expires_at) s.inner }

-- `cookie` is the fresh UUID.
unfoldable pub generate : ℕ → Text → Text → BaseCookieStore → Text × BaseCookieStore
unfolding prune
generate now cookie account_id s =
    let entry : CookieEntry = record { account_id = account_id; expires_at = now + s.ttl } in
    (cookie, record s { inner = HashMap.insert cookie entry (prune now s).inner })

-- `.filter(|e| e.expires_at > now).map(|e| e.account_id)`
abbrev pub account_of : ℕ → Option CookieEntry → Option Text
account_of now none = none
account_of now (some e) = if ltb now e.expires_at then some e.account_id else none

unfoldable pub get : ℕ → Text → BaseCookieStore → Option Text
get now cookie s = account_of now (HashMap.get s.inner cookie)

-- The `if let` of `refresh`; `system_now` is the other clock, whose instants it answers with.
unfoldable pub refresh_entry :
    ℕ → ℕ → Text → Option CookieEntry → BaseCookieStore → Option ℕ × BaseCookieStore
refresh_entry now system_now cookie none s = (none, s)
refresh_entry now system_now cookie (some e) s =
    if ltb now e.expires_at
    then (
      some (system_now + s.ttl),
      record s { inner = HashMap.insert cookie (record e { expires_at = now + s.ttl }) s.inner },
    )
    else (none, s)

unfoldable pub refresh : ℕ → ℕ → Text → BaseCookieStore → Option ℕ × BaseCookieStore
unfolding refresh_entry
refresh now system_now cookie s = refresh_entry now system_now cookie (HashMap.get s.inner cookie) s

unfoldable pub delete : Text → BaseCookieStore → Bool × BaseCookieStore
delete cookie s =
    (is_some (HashMap.get s.inner cookie), record s { inner = HashMap.remove cookie s.inner })

account_of_kept :
    (now later : ℕ) (o : Option CookieEntry)
    → now ≤ later
    → account_of later (filter_value (λ e. ltb now e.expires_at) o) ≡ account_of later o
account_of_kept now later none le = refl
account_of_kept now later (some e) le = ground arith

-- A new cookie stands for its account until its time to live has passed; every other cookie is
-- read as before, so that the pruning on the way is never seen.
pub get_after_generate :
    (now later : ℕ) (cookie account : Text) (s : BaseCookieStore) (j : Text)
    → now ≤ later
    → get later j (generate now cookie account s).1 ≡ (
        if text_eq cookie j
        then (if ltb later (now + s.ttl) then some account else none)
        else get later j s)
unfolding get generate prune
get_after_generate now later cookie account s j le = elim (Bool-cases (text_eq cookie j)) [
  | inl e ↦ rw (get-insert, e) refl
  | inr e ↦ rw (get-insert, e, get-retain) (account_of_kept now later _ le)
]

-- Refreshing a cookie that is valid makes it valid for a whole time to live from now and answers
-- with the new expiry; a cookie that is unknown or expired is not brought back, and no other
-- cookie changes.
pub get_after_refresh :
    (now system_now later : ℕ) (cookie : Text) (s : BaseCookieStore) (j : Text)
    → let valid = is_some (get now cookie s) in
      let (answer, s') = refresh now system_now cookie s in
      (answer ≡ (if valid then some (system_now + s.ttl) else none))
      × (get later j s' ≡ (
          if valid && text_eq cookie j
          then (if ltb later (now + s.ttl) then get now cookie s else none)
          else get later j s))
unfolding get refresh
get_after_refresh now system_now later cookie s j =
    elim (Option-cases (HashMap.get s.inner cookie)) [
      | inl e ↦ rw e (refl, refl)
      | inr (w, e) ↦ elim (Bool-cases (ltb now w.expires_at)) [
        | inr x ↦ rw e (rw x (refl, refl))
        | inl x ↦ elim (Bool-cases (text_eq cookie j)) [
          | inl y ↦ rw e (rw (x, get-insert, y) (refl, refl))
          | inr y ↦ rw e (rw (x, get-insert, y) (refl, refl))
        ]
      ]
    ]

-- A deleted cookie is never read again, the answer is whether it was stored, and no other changes.
get_after_delete_cookie :
    (later : ℕ) (cookie : Text) (s : BaseCookieStore) (j : Text)
    → ((delete cookie s).0 ≡ is_some (HashMap.get s.inner cookie))
      × (get later j (delete cookie s).1 ≡ (if text_eq cookie j then none else get later j s))
unfolding get delete
get_after_delete_cookie later cookie s j = elim (Bool-cases (text_eq cookie j)) [
  | inl e ↦ (refl, rw (get-remove, e) refl)
  | inr e ↦ (refl, rw (get-remove, e) refl)
]
