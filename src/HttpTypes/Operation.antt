-- ===== src/HttpTypes/Operation.antt =====
-- http-types/src/operation.rs: methods, access modes, and what an operation requires.
use solid_community_rs.Prelude.{
  ◌≡◌, refl, ◌∙◌, ap, ◌↔◌, Bool, true, false, List, [], ◌∷◌, Option, none, some, arith, Text, text,
  text_eq, text_eq_iff, if◌then◌else◌,
}

pub data HttpMethod : Type 0 where
  get head post put patch delete options : HttpMethod

pub data AccessMode : Type 0 where
  read write append control : AccessMode

-- `Display`
unfoldable pub to_string : HttpMethod → Text
to_string get = text "GET"
to_string head = text "HEAD"
to_string post = text "POST"
to_string put = text "PUT"
to_string patch = text "PATCH"
to_string delete = text "DELETE"
to_string options = text "OPTIONS"

-- The `match` of `try_from` on the text in upper case.
unfoldable pub of_upper : Text → Option HttpMethod
of_upper s =
    if text_eq s (text "GET")
    then some get
    else if text_eq s (text "HEAD")
    then some head
    else if text_eq s (text "POST")
    then some post
    else if text_eq s (text "PUT")
    then some put
    else if text_eq s (text "PATCH")
    then some patch
    else if text_eq s (text "DELETE")
    then some delete
    else if text_eq s (text "OPTIONS")
    then some options
    else none

-- `HttpMethod::try_from`; `to_uppercase` is that of `str`, and the message of the error is left out.
unfoldable pub try_from : (Text → Text) → Text → Option HttpMethod
unfolding of_upper
try_from to_uppercase s = of_upper (to_uppercase s)

of_upper-to_string : (m : HttpMethod) → of_upper (to_string m) ≡ some m
unfolding of_upper to_string text_eq
of_upper-to_string get = refl
of_upper-to_string _ = refl

of_upper_sound : (s : Text) (m : HttpMethod) → of_upper s ≡ some m → s ≡ to_string m
unfolding of_upper to_string
of_upper_sound s m h = ground (
  arith,
  text_eq_iff s (text "GET"),
  text_eq_iff s (text "HEAD"),
  text_eq_iff s (text "POST"),
  text_eq_iff s (text "PUT"),
  text_eq_iff s (text "PATCH"),
  text_eq_iff s (text "DELETE"),
  text_eq_iff s (text "OPTIONS"),
)

-- A text is read as a method exactly if it is that method's name once in upper case.
try_from_iff :
    (to_uppercase : Text → Text) (s : Text) (m : HttpMethod)
    → (try_from to_uppercase s ≡ some m) ↔ (to_uppercase s ≡ to_string m)
unfolding try_from
try_from_iff to_uppercase s m =
    (of_upper_sound (to_uppercase s) m, λ e. ap of_upper e ∙ of_upper-to_string m)

-- `Operation::is_write`, by the method
unfoldable pub is_write : HttpMethod → Bool
is_write put = true
is_write post = true
is_write patch = true
is_write _ = false

-- `Operation::required_access_modes`, by the method
unfoldable pub required_access_modes : HttpMethod → List AccessMode
required_access_modes get = read ∷ []
required_access_modes head = read ∷ []
required_access_modes put = write ∷ []
required_access_modes patch = write ∷ []
required_access_modes post = append ∷ []
required_access_modes delete = write ∷ []
required_access_modes options = []
