-- ===== src/ServerCore/Accept.antt =====
-- server-core/src/ldp_handlers.rs, `accept_satisfied`: whether a stored content type satisfies an
-- `Accept` header.
use solid_community_rs.Prelude.{
  ◌≡◌, refl, ◌↔◌, ◌⊎◌, inl, inr, Bool, true, false, ◌||◌, List, [], ◌∷◌, ◌++◌, arith, append_assoc,
  Text, text, text_eq, text_eq_iff, text_eq_refl, starts_with, is_empty, Option, none, some,
  Bool-cases, Any, if◌then◌else◌,
}
use solid_community_rs.Prelude.Split.{
  split, trim, first_piece, strip_suffix, strip_suffix_sound, strip_suffix-append,
  starts_with_sound, starts_with-append,
}

-- A list element or content type without its parameters.
unfoldable pub base : Text → Text
unfolding split trim
base t = trim (first_piece (split t b';'))

abbrev pub any_type : Text
any_type = text "*/*"

abbrev pub subtype_wildcard : Text
subtype_wildcard = text "/*"

-- The subtype wildcard, or else the exact match.
abbrev stripped_satisfied : Option Text → Text → Text → Bool
stripped_satisfied (some major) token ct_base = starts_with ct_base (major ++ b'/' ∷ [])
stripped_satisfied none token ct_base = text_eq ct_base token

-- The test of one round of the loop, on a trimmed token.
unfoldable pub token_satisfied : Text → Text → Bool
unfolding text_eq strip_suffix starts_with
token_satisfied token ct_base =
    if text_eq token any_type || is_empty token
    then true
    else stripped_satisfied (strip_suffix token subtype_wildcard) token ct_base

-- The loop; a token that does not satisfy goes on to the next.
unfoldable pub any_satisfied : List Text → Text → Bool
any_satisfied [] ct_base = false
any_satisfied (t ∷ tokens) ct_base =
    let rest = any_satisfied tokens ct_base in
    if token_satisfied (base t) ct_base then true else rest

unfoldable pub accept_satisfied : Text → Text → Bool
unfolding any_satisfied token_satisfied base split
accept_satisfied accept_header content_type =
    any_satisfied (split accept_header b',') (base content_type)

-- A token accepts a media type: it is empty or `*/*`, or `major/*` for the major part of the type,
-- or the type itself.
pub record SameMajor (token ct_base : Text) : Type 0 where
  pub major : Text
  pub subtype : Text
  pub of_token : token ≡ major ++ subtype_wildcard
  pub of_type : ct_base ≡ (major ++ b'/' ∷ []) ++ subtype

abbrev pub Accepts : Text → Text → Type 0
Accepts ct_base token =
    (token ≡ any_type) ⊎ (token ≡ []) ⊎ SameMajor token ct_base ⊎ (ct_base ≡ token)

is_empty_sound : (t : Text) → is_empty t ≡ true → t ≡ []
is_empty_sound [] h = refl
is_empty_sound (x ∷ t) h = cc

stripped_sound :
    (o : Option Text) (token ct_base : Text)
    → strip_suffix token subtype_wildcard ≡ o
    → stripped_satisfied o token ct_base ≡ true
    → Accepts ct_base token
stripped_sound (some major) token ct_base e h =
    let (r, cut) = starts_with_sound ct_base (major ++ b'/' ∷ []) h in
    inr (
      inr (
        inl (record {
          major = major;
          subtype = r;
          of_token = strip_suffix_sound token subtype_wildcard major e;
          of_type = cut;
        })))
stripped_sound none token ct_base e h = inr (inr (inr ((text_eq_iff ct_base token).0 h)))

token_sound : (token ct_base : Text) → token_satisfied token ct_base ≡ true → Accepts ct_base token
unfolding token_satisfied
token_sound token ct_base h = elim (Bool-cases (text_eq token any_type)) [
  | inl e ↦ inl ((text_eq_iff token any_type).0 e)
  | inr e ↦ elim (Bool-cases (is_empty token)) [
    | inl e' ↦ inr (inl (is_empty_sound token e'))
    | inr e' ↦ stripped_sound _ token ct_base refl (rw (e, e') at h)
  ]
]

stripped_exact :
    (o : Option Text) (token : Text)
    → strip_suffix token subtype_wildcard ≡ o
    → stripped_satisfied o token token ≡ true
stripped_exact (some major) token e =
    rw
      (
        strip_suffix_sound token subtype_wildcard major e,
        ← append_assoc major (b'/' ∷ []) (b'*' ∷ []),
      )
      (starts_with-append (major ++ b'/' ∷ []) (b'*' ∷ []))
stripped_exact none token e = text_eq_refl token

if_else_true : (c : Bool) {b : Bool} → b ≡ true → (if c then true else b) ≡ true
if_else_true c h = ground arith

token_complete :
    (token ct_base : Text) → Accepts ct_base token → token_satisfied token ct_base ≡ true
unfolding token_satisfied
token_complete token ct_base (inl e) = rw e (rw (text_eq_refl any_type) refl)
token_complete token ct_base (inr (inl e)) = rw e (ground arith)
token_complete token ct_base (inr (inr (inl m))) =
    rw (m.of_token, m.of_type)
      (rw (strip_suffix-append m.major subtype_wildcard)
        (if_else_true _ (starts_with-append (m.major ++ b'/' ∷ []) m.subtype)))
token_complete token ct_base (inr (inr (inr e))) =
    rw e (if_else_true _ (stripped_exact _ token refl))

Any-sound :
    (tokens : List Text) (ct_base : Text)
    → any_satisfied tokens ct_base ≡ true
    → Any (λ t. Accepts ct_base (base t)) tokens
unfolding any_satisfied
Any-sound [] ct_base h = absurd (ground arith)
Any-sound (t ∷ tokens) ct_base h = elim (Bool-cases (token_satisfied (base t) ct_base)) [
  | inl e ↦ inl (token_sound (base t) ct_base e)
  | inr e ↦ inr (Any-sound tokens ct_base (rw e at h))
]

Any-complete :
    (tokens : List Text) (ct_base : Text)
    → Any (λ t. Accepts ct_base (base t)) tokens
    → any_satisfied tokens ct_base ≡ true
unfolding any_satisfied
Any-complete [] ct_base h = absurd h
Any-complete (t ∷ tokens) ct_base (inl h) = rw (token_complete (base t) ct_base h) refl
Any-complete (t ∷ tokens) ct_base (inr h) = if_else_true _ (Any-complete tokens ct_base h)

-- An `Accept` header is satisfied exactly if one of its elements, without parameters, accepts the
-- content type without parameters: `*/*`, an empty element, `major/*` for the type's major part,
-- or the type itself.
pub accept_satisfied_iff :
    (accept_header content_type : Text)
    → (accept_satisfied accept_header content_type ≡ true)
      ↔ Any (λ t. Accepts (base content_type) (base t)) (split accept_header b',')
unfolding accept_satisfied
accept_satisfied_iff accept_header content_type =
    (Any-sound _ (base content_type), Any-complete _ (base content_type))
