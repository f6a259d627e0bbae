-- ===== src/ServerCore/Store/Ancestors.antt =====
-- The containers that `ensure_ancestors` creates are the prefixes of the trimmed key that end in a
-- slash, as many as 100 pieces give.
use solid_community_rs.Prelude.{
  ℕ, zero, suc, ◌+◌, ◌≤◌, ◌≡◌, refl, ap, sym, ◌∙◌, Bool, true, false, ◌⊎◌, inl, inr, List, [], ◌∷◌,
  ◌++◌, map, append_assoc, append-nil, Option, none, some, arith, Text, text_eq, text_eq_iff,
  text_eq_refl, slash, member, count, ends_with, ◌==◌, ==_iff, ◌||◌, Bool-cases,
}
use solid_community_rs.Prelude.HashMap
use solid_community_rs.Prelude.HashMap.{HashMap, map_laws, get-insert}
use solid_community_rs.Prelude.Split.{splitn, extend_first, splitn_at, splitn_past, splitn-cons}
use solid_community_rs.Prelude.Trim.{ends_with-concat}
use solid_community_rs.ServerCore.Store.{
  Entry, auto_container, or_insert, extend, store_key, ensure_each, without_last,
}

-- The values of `current` after each round.
abbrev pub currents : Text → List Text → List Text
currents current [] = []
currents current (part ∷ parts) = let next = extend current part in next ∷ currents next parts

abbrev pub or_auto : Bool → Option Entry → Option Entry
or_auto b (some e) = some e
or_auto true none = some auto_container
or_auto false none = none

get-or_insert :
    (m : HashMap Entry) (k j : Text)
    → HashMap.get (or_insert k auto_container m) j ≡ or_auto (text_eq k j) (HashMap.get m j)
unfolding or_insert
get-or_insert m k j = ground (arith, get-insert m k j auto_container, text_eq_iff k j)

-- Exactly the keys written are added, and no entry is changed.
pub get-ensure_each :
    (m : HashMap Entry) (current : Text) (parts : List Text) (j : Text)
    → HashMap.get (ensure_each m current parts) j
      ≡ or_auto (member j (map store_key (currents current parts))) (HashMap.get m j)
unfolding ensure_each member
get-ensure_each m current [] j = ground arith
get-ensure_each m current (part ∷ parts) j = ground (
  arith,
  get-ensure_each (or_insert (store_key (extend current part)) auto_container m)
      (extend current part) parts j,
  get-or_insert m (store_key (extend current part)) j,
)

-- From a `current` that ends in a slash a round adds the piece and a slash.
extend_from_slash :
    (current part : Text)
    → ends_with current slash ≡ true
    → extend current part ≡ (current ++ part) ++ slash ∷ []
unfolding extend
extend_from_slash current [] h = rw append-nil refl
extend_from_slash current (x ∷ part) h = rw h refl

-- The same without the test, for any start.
abbrev pub joined : Text → List Text → List Text
joined current [] = []
joined current (part ∷ parts) =
    let next = (current ++ part) ++ slash ∷ [] in next ∷ joined next parts

pub currents-eq-joined :
    (current : Text) (parts : List Text)
    → ends_with current slash ≡ true
    → currents current parts ≡ joined current parts
currents-eq-joined current [] h = refl
currents-eq-joined current (part ∷ parts) h = rw (extend_from_slash current part h) (
    ap (λ l. ((current ++ part) ++ slash ∷ []) ∷ l)
      (currents-eq-joined _ parts (ends_with-concat (current ++ part) slash)))

pub without_last-split :
    (n : ℕ) (s : Text)
    → without_last ([] ∷ splitn (suc n) s slash) ≡ [] ∷ without_last (splitn (suc n) s slash)
without_last-split n s = let (t, ts, e) = splitn-cons n s slash in rw e refl

joined-extend_first :
    (current : Text) (x : ℕ) (ts : List Text)
    → joined current (without_last (extend_first x ts))
      ≡ joined (current ++ x ∷ []) (without_last ts)
joined-extend_first current x [] = refl
joined-extend_first current x (t ∷ []) = refl
joined-extend_first current x (t ∷ u ∷ l) = rw (append_assoc current (x ∷ []) t) refl

abbrev pub pieces : ℕ → Text → List Text
pieces n s = without_last (splitn n s slash)

joined_at_slash :
    (n : ℕ) (current s : Text)
    → joined current (pieces (suc (suc n)) (slash ∷ s))
      ≡ (current ++ slash ∷ []) ∷ joined (current ++ slash ∷ []) (pieces (suc n) s)
joined_at_slash n current s =
    rw (splitn_at n slash s slash refl) (rw (without_last-split n s, append-nil) refl)

joined_at_other :
    (n : ℕ) (current : Text) (x : ℕ) (s : Text)
    → (x == slash) ≡ false
    → joined current (pieces (suc (suc n)) (x ∷ s))
      ≡ joined (current ++ x ∷ []) (pieces (suc (suc n)) s)
joined_at_other n current x s h = rw (splitn_past n x s slash h) (joined-extend_first current x _)

pub or_right : (a : Bool) {b : Bool} → b ≡ true → (a || b) ≡ true
or_right a h = ground arith

-- Every prefix that ends in one of the first `n - 1` slashes is among the keys.
pub member-joined :
    (p r current : Text) (n : ℕ)
    → count slash p + 2 ≤ n
    → member ((current ++ p) ++ slash ∷ []) (joined current (pieces n (p ++ slash ∷ r))) ≡ true
unfolding member count
member-joined p r current zero h = absurd (omega arith)
member-joined p r current (suc zero) h = absurd (omega arith)
member-joined [] r current (suc (suc n)) h =
    rw (joined_at_slash n current r) (rw (append-nil, text_eq_refl) refl)
member-joined (x ∷ p) r current (suc (suc n)) h = elim (Bool-cases (x == slash)) [
  | inl e ↦
      let ih = member-joined p r (current ++ slash ∷ []) (suc n) (ground arith) in
      rw ((==_iff x slash).0 e) (
        rw (joined_at_slash n current (p ++ slash ∷ r))
          (or_right _ (rw (append_assoc current (slash ∷ []) p) at ih)))
  | inr e ↦
      let ih = member-joined p r (current ++ x ∷ []) (suc (suc n)) (ground arith) in
      rw (joined_at_other n current x (p ++ slash ∷ r) e)
        (rw (append_assoc current (x ∷ []) p) at ih)
]

pub or_cases : (a : Bool) {b : Bool} → (a || b) ≡ true → (a ≡ true) ⊎ (b ≡ true)
or_cases true h = inl refl
or_cases false h = inr h

-- `j` is `current` with a prefix of `s` that ends in a slash.
pub record ExtendsBy (current s j : Text) : Type 0 where
  pub prefix : Text
  pub rest : Text
  pub cut : s ≡ prefix ++ slash ∷ rest
  pub path : j ≡ (current ++ prefix) ++ slash ∷ []

ExtendsBy-cons :
    {current s j : Text} (x : ℕ) → ExtendsBy (current ++ x ∷ []) s j → ExtendsBy current (x ∷ s) j
ExtendsBy-cons {current} x e = record {
  prefix = x ∷ e.prefix;
  rest = e.rest;
  cut = ap (λ l. x ∷ l) e.cut;
  path = e.path ∙ ap (λ l. l ++ slash ∷ []) (append_assoc current (x ∷ []) e.prefix);
}

ExtendsBy-here : (current s j : Text) → j ≡ current ++ slash ∷ [] → ExtendsBy current (slash ∷ s) j
ExtendsBy-here current s j e = record { prefix = []; rest = s; cut = refl; path = rw append-nil e }

-- The keys are such prefixes, and no others.
pub joined_sound :
    (s current j : Text) (n : ℕ)
    → member j (joined current (pieces n s)) ≡ true
    → ExtendsBy current s j
unfolding member splitn
joined_sound s current j zero h = absurd (ground arith)
joined_sound s current j (suc zero) h = absurd (ground arith)
joined_sound [] current j (suc (suc n)) h = absurd (ground arith)
joined_sound (x ∷ s) current j (suc (suc n)) h = elim (Bool-cases (x == slash)) [
  | inl e ↦
      let x_slash : x ≡ slash = (==_iff x slash).0 e in
      let h' = rw (joined_at_slash n current s) at (rw x_slash at h) in
      rw x_slash (elim (or_cases (text_eq (current ++ slash ∷ []) j) h') [
        | inl here ↦ ExtendsBy-here current s j (sym ((text_eq_iff _ j).0 here))
        | inr later ↦ ExtendsBy-cons slash (joined_sound s (current ++ slash ∷ []) j (suc n) later)
      ])
  | inr e ↦ ExtendsBy-cons x (
      joined_sound s (current ++ x ∷ []) j (suc (suc n))
        (rw (joined_at_other n current x s e) at h))
]
