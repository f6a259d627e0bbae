-- ===== src/StaticAssets/Resolution.antt =====
-- Which file a request is resolved to.
use solid_community_rs.Prelude.{
  ℕ, ◌≡◌, ◌≤◌, ◌⊎◌, inl, inr, refl, sym, ap, ◌∙◌, Bool, true, false, List, [], ◌∷◌, ◌++◌, Option,
  none, some, arith, Text, text, slash, length, drop, filter, ltb, starts_with, ends_with,
  trim_start_matches, Bool-cases, All, Any,
}
use solid_community_rs.Prelude.Split.{contains, starts_with_sound}
use solid_community_rs.StaticAssets.{
  StaticAssetEntry, StaticAssetHandler, Resolved, asset, url_length, longest_from, longest, best,
  join, no_asset, resolve_best, clean, resolve,
}

module _ (P : StaticAssetEntry → Bool) where
  -- The entry is one of the list that match, and none of those has a longer prefix.
  pub record IsLongest (es : List StaticAssetEntry) (e : StaticAssetEntry) : Type 0 where
    pub member : Any (λ f. f ≡ e) es
    pub matches : P e ≡ true
    pub longest_one : All (λ f. P f ≡ true → url_length f ≤ url_length e) es

-- The entry is the first one or one of the others, and none of them has a longer prefix.
record IsTop (e : StaticAssetEntry) (fs : List StaticAssetEntry) (t : StaticAssetEntry)
    : Type 0 where
  above_first : url_length e ≤ url_length t
  above : All (λ f. url_length f ≤ url_length t) fs
  one : Any (λ f. f ≡ t) (e ∷ fs)

one_of_more :
    (P : StaticAssetEntry → Type 0) (e f : StaticAssetEntry) (fs : List StaticAssetEntry)
    → Any P (e ∷ fs)
    → Any P (e ∷ f ∷ fs)
one_of_more P e f fs (inl p) = inl p
one_of_more P e f fs (inr p) = inr (inr p)

longest_from_lem :
    (e : StaticAssetEntry) (fs : List StaticAssetEntry) → IsTop e fs (longest_from e fs)
unfolding longest_from
longest_from_lem e [] = record { above_first = omega arith; above = tt; one = inl refl }
longest_from_lem e (f ∷ fs) = elim (Bool-cases (ltb (url_length f) (url_length e))) [
  | inl h ↦
      let top = longest_from_lem e fs in
      rw h (record {
        above_first = top.above_first;
        above = (ground (arith, top.above_first), top.above);
        one = one_of_more _ e f fs top.one;
      })
  | inr h ↦
      let top = longest_from_lem f fs in
      rw h (record {
        above_first = ground (arith, top.above_first);
        above = (top.above_first, top.above);
        one = inr top.one;
      })
]

kept_of :
    (P : StaticAssetEntry → Bool) (es : List StaticAssetEntry) (t : StaticAssetEntry)
    → Any (λ f. f ≡ t) (filter P es)
    → Any (λ f. f ≡ t) es × (P t ≡ true)
kept_of P [] t h = absurd h
kept_of P (e ∷ es) t h = elim (Bool-cases (P e)) [
  | inr no_match ↦ let (there, matches) = kept_of P es t (rw no_match at h) in (inr there, matches)
  | inl match ↦
      let here : Any (λ f. f ≡ t) (e ∷ filter P es) = rw match at h in
      elim here [
        | inl same ↦ (inl same, sym (ap P same) ∙ match)
        | inr later ↦ let (there, matches) = kept_of P es t later in (inr there, matches)
      ]
]

kept_below :
    (P : StaticAssetEntry → Bool) (es : List StaticAssetEntry) (n : ℕ)
    → All (λ f. url_length f ≤ n) (filter P es)
    → All (λ f. P f ≡ true → url_length f ≤ n) es
kept_below P [] n h = tt
kept_below P (e ∷ es) n h = elim (Bool-cases (P e)) [
  | inr no_match ↦ (λ m. cc (sym m ∙ no_match), kept_below P es n (rw no_match at h))
  | inl match ↦
      let kept : All (λ f. url_length f ≤ n) (e ∷ filter P es) = rw match at h in
      (λ m. kept.0, kept_below P es n kept.1)
]

none_kept :
    (P : StaticAssetEntry → Bool) (es : List StaticAssetEntry)
    → filter P es ≡ []
    → All (λ f. P f ≡ false) es
none_kept P [] h = tt
none_kept P (e ∷ es) h = elim (Bool-cases (P e)) [
  | inr no_match ↦ (no_match, none_kept P es (rw no_match at h))
  | inl match ↦ let kept : e ∷ filter P es ≡ [] = rw match at h in cc kept
]

-- What `best` finds: nothing if no entry matches, and else a longest one that does.
pub IsBest : Text → List StaticAssetEntry → Option StaticAssetEntry → Type 0
IsBest c es none = All (λ e. starts_with c e.url_path ≡ false) es
IsBest c es (some e) = IsLongest (λ f. starts_with c f.url_path) es e

longest-IsBest :
    (c : Text) (es kept : List StaticAssetEntry)
    → filter (λ e. starts_with c e.url_path) es ≡ kept
    → IsBest c es (longest kept)
unfolding longest IsBest
longest-IsBest c es [] h = none_kept (λ e. starts_with c e.url_path) es h
longest-IsBest c es (e ∷ kept) h =
    let top = longest_from_lem e kept in
    let P : StaticAssetEntry → Bool = λ f. starts_with c f.url_path in
    let (member, matches) = kept_of P es (longest_from e kept) (rw h top.one) in
    record {
      member = member;
      matches = matches;
      longest_one =
          kept_below P es (url_length (longest_from e kept)) (rw h (top.above_first, top.above));
    }

best-IsBest : (c : Text) (es : List StaticAssetEntry) → IsBest c es (best c es)
unfolding best
best-IsBest c es = longest-IsBest c es (filter (λ e. starts_with c e.url_path) es) refl

drop-append : (p r : Text) → drop (length p) (p ++ r) ≡ r
drop-append [] r = refl
drop-append (x ∷ p) r = drop-append p r

-- The best entry with the text that follows its prefix, to a path without `..` in that text.
pub record IsResolution (c : Text) (es : List StaticAssetEntry) (path : Text) : Type 0 where
  pub entry : StaticAssetEntry
  pub suffix : Text
  pub longest_entry : IsLongest (λ f. starts_with c f.url_path) es entry
  pub divided : c ≡ entry.url_path ++ suffix
  pub no_dots : contains suffix (text "..") ≡ false
  pub joined : path ≡ join entry.fs_path (trim_start_matches suffix slash)

-- Why there is no asset: no entry matches, or `..` follows the longest prefix that does.
pub record HasDots (c : Text) (es : List StaticAssetEntry) : Type 0 where
  pub entry : StaticAssetEntry
  pub suffix : Text
  pub longest_entry : IsLongest (λ f. starts_with c f.url_path) es entry
  pub divided : c ≡ entry.url_path ++ suffix
  pub dots : contains suffix (text "..") ≡ true

abbrev pub Unmatched : Text → List StaticAssetEntry → Type 0
Unmatched c es = All (λ e. starts_with c e.url_path ≡ false) es

abbrev pub Outcome : (Text → Text) → StaticAssetHandler → Text → Resolved → Type 0
Outcome mime h url o =
    ((o ≡ no_asset url) × (Unmatched (clean url) h.entries ⊎ HasDots (clean url) h.entries))
    ⊎ ((path : Text) × (o ≡ asset path (mime path)) × IsResolution (clean url) h.entries path)

resolve_best_lem :
    (mime : Text → Text) (h : StaticAssetHandler) (url : Text) (o : Option StaticAssetEntry)
    → IsBest (clean url) h.entries o
    → Outcome mime h url (resolve_best mime url (clean url) o)
unfolding IsBest
resolve_best_lem mime h url none b = inl (refl, inl b)
resolve_best_lem mime h url (some e) b =
    let (t, divided) = starts_with_sound (clean url) e.url_path b.matches in
    let rest = ap (drop (length e.url_path)) divided ∙ drop-append e.url_path t in
    elim (Bool-cases (contains t (text ".."))) [
      | inl dots ↦ inl (
        rw rest (rw dots refl),
        inr (record { entry = e; suffix = t; longest_entry = b; divided = divided; dots = dots }),
      )
      | inr no_dots ↦ inr (
        join e.fs_path (trim_start_matches t slash),
        rw rest (rw no_dots refl),
        record {
          entry = e;
          suffix = t;
          longest_entry = b;
          divided = divided;
          no_dots = no_dots;
          joined = refl;
        },
      )
    ]

-- A request is resolved by a longest entry whose prefix its path, without the query, begins with: to
-- the path of the entry joined with what follows the prefix. There is no asset exactly if no entry
-- matches or if `..` stands in what follows.
pub resolve_lem :
    (mime : Text → Text) (h : StaticAssetHandler) (url : Text)
    → Outcome mime h url (resolve mime h url)
unfolding resolve
resolve_lem mime h url =
    resolve_best_lem mime h url (best (clean url) h.entries) (best-IsBest (clean url) h.entries)

contains-trim_start_matches :
    (s p : Text) (c : ℕ) → contains s p ≡ false → contains (trim_start_matches s c) p ≡ false
unfolding contains trim_start_matches
contains-trim_start_matches [] p c h = h
contains-trim_start_matches (x ∷ s) p c h = ground (arith, contains-trim_start_matches s p c)

join_lem :
    (base t : Text)
    → contains t (text "..") ≡ false
    → (r : Text) × (join base t ≡ base ++ r) × (contains r (text "..") ≡ false)
unfolding join contains starts_with
join_lem [] t h = (t, refl, h)
join_lem (x ∷ base) t h = elim (Bool-cases (ends_with (x ∷ base) slash)) [
  | inl e ↦ (t, rw e refl, h)
  | inr e ↦ (slash ∷ t, rw e refl, h)
]

-- A path that a request is resolved to is the path of an entry followed by a text without `..`.
pub resolve_stays_below :
    (mime : Text → Text) (h : StaticAssetHandler) (url path type : Text)
    → resolve mime h url ≡ asset path type
    → (e : StaticAssetEntry) × (r : Text) × Any (λ f. f ≡ e) h.entries
      × (path ≡ e.fs_path ++ r)
      × (contains r (text "..") ≡ false)
resolve_stays_below mime h url path type found = elim (resolve_lem mime h url) [
  | inl (refused, _) ↦ cc (sym found ∙ refused)
  | inr (p, o, r) ↦
      let (t, same, clear) =
        join_lem r.entry.fs_path (trim_start_matches r.suffix slash)
          (contains-trim_start_matches r.suffix (text "..") slash r.no_dots) in
      let paths : path ≡ p = cc (sym found ∙ o) in
      (r.entry, t, r.longest_entry.member, paths ∙ r.joined ∙ same, clear)
]
