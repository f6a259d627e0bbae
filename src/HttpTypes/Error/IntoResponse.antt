-- ===== src/HttpTypes/Error/IntoResponse.antt =====
-- http-types/src/error.rs: the response that an error becomes.
use solid_community_rs.Prelude.{
  ℕ, ◌≤◌, ◌≡◌, ap, List, [], ◌∷◌, Option, some, arith, Text, text, unwrap_or,
}
use solid_community_rs.ServerCore.Http.{Response, content_type}
use solid_community_rs.HttpTypes.Error.{SolidError, status_code, to_string}

-- What the crates http and serde_json do: the status of a number, its canonical reason, and the bytes
-- of an object with the fields `error` and `message`.
pub record Encoding : Type 0 where
  pub from_u16 : ℕ → Option ℕ
  pub canonical_reason : ℕ → Option Text
  pub json : Text → Text → List ℕ

unfoldable pub into_response : Encoding → SolidError → Response
into_response enc e =
    let status = unwrap_or (enc.from_u16 (status_code e)) 500 in
    record {
      status = status;
      headers = (content_type, text "application/json") ∷ [];
      body = enc.json (unwrap_or (enc.canonical_reason status) (text "Error")) (to_string e);
    }

status_bounds : (e : SolidError) → (304 ≤ status_code e) × (status_code e ≤ 503)
unfolding status_code
status_bounds e = ground arith

-- The fallback is never taken: the response has the status code of the error, if the numbers of three
-- digits are statuses.
into_response_lem :
    (enc : Encoding) (e : SolidError)
    → ((n : ℕ) → 100 ≤ n → n ≤ 999 → enc.from_u16 n ≡ some n)
    → ((into_response enc e).status ≡ status_code e)
      × ((into_response enc e).body
          ≡ enc.json
              (unwrap_or (enc.canonical_reason (status_code e)) (text "Error"))
              (to_string e))
unfolding into_response
into_response_lem enc e statuses =
    let (low, high) = status_bounds e in
    let same = statuses (status_code e) (omega arith) (omega arith) in
    (
      ap (λ o. unwrap_or o 500) same,
      ap
          (λ o.
            enc.json (unwrap_or (enc.canonical_reason (unwrap_or o 500)) (text "Error"))
              (to_string e))
          same,
    )
