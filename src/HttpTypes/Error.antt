-- ===== src/HttpTypes/Error.antt =====
-- http-types/src/error.rs: the errors with their status codes and messages.
pub mod IntoResponse
use solid_community_rs.Prelude.{
  ℕ, ◌+◌, ◌/◌, ◌%◌, ◌≡◌, ◌≢◌, ◌↔◌, refl, Bool, true, false, ◌&&◌, [], ◌∷◌, ◌++◌, Text, text,
  starts_with, ltb, leb,
}

pub data SolidError : Type 0 where
  not_modified : SolidError
  bad_request unauthorized forbidden not_found method_not_allowed not_acceptable : Text → SolidError
  conflict gone precondition_failed unsupported_media_type : Text → SolidError
  unprocessable_entity internal not_implemented service_unavailable : Text → SolidError

unfoldable pub status_code : SolidError → ℕ
status_code not_modified = 304
status_code (bad_request _) = 400
status_code (unauthorized _) = 401
status_code (forbidden _) = 403
status_code (not_found _) = 404
status_code (method_not_allowed _) = 405
status_code (not_acceptable _) = 406
status_code (conflict _) = 409
status_code (gone _) = 410
status_code (precondition_failed _) = 412
status_code (unsupported_media_type _) = 415
status_code (unprocessable_entity _) = 422
status_code (internal _) = 500
status_code (not_implemented _) = 501
status_code (service_unavailable _) = 503

-- `Display`, from the `#[error(…)]` lines.
unfoldable pub to_string : SolidError → Text
to_string not_modified = text "304 Not Modified"
to_string (bad_request m) = text "400 Bad Request: " ++ m
to_string (unauthorized m) = text "401 Unauthorized: " ++ m
to_string (forbidden m) = text "403 Forbidden: " ++ m
to_string (not_found m) = text "404 Not Found: " ++ m
to_string (method_not_allowed m) = text "405 Method Not Allowed: " ++ m
to_string (not_acceptable m) = text "406 Not Acceptable: " ++ m
to_string (conflict m) = text "409 Conflict: " ++ m
to_string (gone m) = text "410 Gone: " ++ m
to_string (precondition_failed m) = text "412 Precondition Failed: " ++ m
to_string (unsupported_media_type m) = text "415 Unsupported Media Type: " ++ m
to_string (unprocessable_entity m) = text "422 Unprocessable Entity: " ++ m
to_string (internal m) = text "500 Internal Server Error: " ++ m
to_string (not_implemented m) = text "501 Not Implemented: " ++ m
to_string (service_unavailable m) = text "503 Service Unavailable: " ++ m

unfoldable pub is_client_error : SolidError → Bool
unfolding status_code
is_client_error e = leb 400 (status_code e) && ltb (status_code e) 500

unfoldable pub is_server_error : SolidError → Bool
unfolding status_code
is_server_error e = leb 500 (status_code e)

-- The three decimal digits of a status code.
abbrev digits : ℕ → Text
digits n = (b'0' + n / 100) ∷ (b'0' + n / 10 % 10) ∷ (b'0' + n % 10) ∷ []

-- The message of every error starts with the digits of its status code.
starts_with-to_string : (e : SolidError) → starts_with (to_string e) (digits (status_code e)) ≡ true
unfolding to_string status_code starts_with
starts_with-to_string not_modified = refl
starts_with-to_string (bad_request m) = refl
starts_with-to_string _ = refl

-- An error is a client error exactly if it is neither 304 nor a server error.
client_error_iff :
    (e : SolidError) → (is_client_error e ≡ true) ↔ (e ≢ not_modified) × (is_server_error e ≡ false)
unfolding is_client_error is_server_error
client_error_iff not_modified = (λ h. cc h, λ n. absurd (n.0 refl))
client_error_iff (internal m) = (λ h. cc h, λ n. cc (n.1))
client_error_iff (not_implemented m) = (λ h. cc h, λ n. cc (n.1))
client_error_iff (service_unavailable m) = (λ h. cc h, λ n. cc (n.1))
client_error_iff _ = (λ _. (λ h. cc h, refl), λ _. refl)
