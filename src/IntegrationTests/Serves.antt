-- ===== src/IntegrationTests/Serves.antt =====
-- What the suites ask of a server, as laws of the client's requests for one path, and the assertions
-- that hold by these laws.
use solid_community_rs.Prelude.{
  leb, ◌&&◌, ℕ, ◌≡◌, refl, Bool, true, false, ==_iff, [], ◌∷◌, Option, none, some, Text, text,
  starts_with,
}
use solid_community_rs.Prelude.Split.{contains}
use solid_community_rs.ServerCore.Accept.{accept_satisfied}
use solid_community_rs.IntegrationTests.Client.{
  Answer, SolidClient, and_then, assert_status, assert_content_type, assert_body_contains,
}

abbrev pub type_name : Text
type_name = text "content-type"

-- The laws are about bodies of ASCII text, as all those of the suite are.
abbrev pub is_ascii : Text → Bool
is_ascii [] = true
is_ascii (c ∷ t) = leb c 127 && is_ascii t

-- A content type may be sent if it is an `IsType`, and so may the `Accept` header of a GET, which is
-- answered as `accept_satisfied` has it. `look` tells the text and the content type of the resource at the path.
pub record Serves {S : Type 0} (c : SolidClient S) (path : Text) (IsType : Text → Type 0)
    (look : S → Option (Text × Text)) : Type 0 where
  pub created : (b t : Text) (s : S) → IsType t → look s ≡ none → (c.put path b t s).0.status ≡ 201
  pub updated :
      (b t : Text) (s : S) (e : Text × Text)
      → IsType t
      → look s ≡ some e
      → (c.put path b t s).0.status ≡ 204
  pub stored :
      (b t : Text) (s : S) → is_ascii b ≡ true → IsType t → look (c.put path b t s).1 ≡ some (b, t)
  pub got_status :
      (s : S) (b t : Text) → look s ≡ some (b, t) → IsType t → (c.get path s).0.status ≡ 200
  pub got_body : (s : S) (b t : Text) → look s ≡ some (b, t) → IsType t → (c.get path s).0.body ≡ b
  pub got_type :
      (s : S) (b t : Text)
      → look s ≡ some (b, t)
      → IsType t
      → (c.get path s).0.header type_name ≡ some t
  pub accepted :
      (s : S) (b t a : Text)
      → look s ≡ some (b, t)
      → IsType t
      → IsType a
      → accept_satisfied a t ≡ true
      → let resp = (c.get_accept path a s).0 in
        (resp.status ≡ 200) × (resp.header type_name ≡ some t)
  pub refused :
      (s : S) (b t a : Text)
      → look s ≡ some (b, t)
      → IsType t
      → IsType a
      → accept_satisfied a t ≡ false
      → (c.get_accept path a s).0.status ≡ 406
  pub patched : (b t : Text) (s : S) → (c.patch path b t s).0.status ≡ 415
  pub kept : (s : S) → look (c.get path s).1 ≡ look s
  pub missing : (s : S) → look s ≡ none → (c.get path s).0.status ≡ 404
  pub deleted : (s : S) (e : Text × Text) → look s ≡ some e → (c.delete path s).0.status ≡ 204
  pub not_deleted : (s : S) → look s ≡ none → (c.delete path s).0.status ≡ 404
  pub gone : (s : S) → look (c.delete path s).1 ≡ none

-- An assertion that holds is passed by: what is true of the rest of the case is true of the case.
pub passed_by :
    {S : Type 0} (Q : Option Text × S → Type 0) (o : Option Text) (next : S → Option Text × S)
    (s : S)
    → o ≡ none
    → Q (next s)
    → Q (and_then o next s)
passed_by Q none next s h k = k
passed_by Q (some e) next s h k = cc h

pub passed :
    {S : Type 0} (o : Option Text) (next : S → Option Text × S) (s : S)
    → o ≡ none
    → (next s).0 ≡ none
    → (and_then o next s).0 ≡ none
passed = passed_by (λ r. r.0 ≡ none)

pub status_holds :
    (show : ℕ → Text) (resp : Answer) (n : ℕ) → resp.status ≡ n → assert_status show resp n ≡ none
unfolding assert_status
status_holds show resp n h = rw h (rw ((==_iff n n).1 refl) refl)

pub body_holds :
    (body t : Text) → body ≡ t → contains t t ≡ true → assert_body_contains body t ≡ none
unfolding assert_body_contains
body_holds body t h c = rw (h, c) refl

pub type_holds :
    (resp : Answer) (t : Text)
    → resp.header type_name ≡ some t
    → starts_with t t ≡ true
    → assert_content_type resp t ≡ none
unfolding assert_content_type
type_holds resp t h c = rw (h, c) refl
