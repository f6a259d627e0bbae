-- ===== src/HttpTypes/Metadata.antt =====
-- http-types/src/metadata.rs: typed links, conditional headers and the metadata of a
-- representation with its builder.
pub mod Links
use solid_community_rs.Prelude.{
  ℕ, Bool, true, false, not, ◌&&◌, List, [], ◌∷◌, ◌++◌, Option, none, some, Text, text, is_some,
}
use solid_community_rs.Prelude.HashMap
use solid_community_rs.Prelude.HashMap.{HashMap}

pub record LinkHeader : Type 0 where
  pub target : Text
  pub rel : Text
  pub params : List Text

-- `LinkHeader::new`
unfoldable pub link : Text → Text → LinkHeader
link target rel = record { target = target; rel = rel; params = [] }

unfoldable pub with_param : LinkHeader → Text → LinkHeader
with_param l param = record l { params = l.params ++ param ∷ [] }

-- The loop of `Display`.
unfoldable pub shown_params : List Text → Text
shown_params [] = []
shown_params (p ∷ ps) = b';' ∷ b' ' ∷ p ++ shown_params ps

-- `Display`
unfoldable pub to_string : LinkHeader → Text
unfolding shown_params
to_string l = b'<' ∷ (l.target ++ (text ">; rel=\"" ++ (l.rel ++ b'"' ∷ shown_params l.params)))

pub record ConditionalHeaders : Type 0 where
  pub if_match : Option (List Text)
  pub if_none_match : Option (List Text)
  pub if_modified_since : Option Text
  pub if_unmodified_since : Option Text

abbrev pub no_conditions : ConditionalHeaders
no_conditions = record {
  if_match = none;
  if_none_match = none;
  if_modified_since = none;
  if_unmodified_since = none;
}

unfoldable pub is_empty : ConditionalHeaders → Bool
is_empty c =
    not (is_some c.if_match)
    && not (is_some c.if_none_match)
    && not (is_some c.if_modified_since)
    && not (is_some c.if_unmodified_since)

pub record RepresentationMetadata : Type 0 where
  pub content_type : Option Text
  pub content_length : Option ℕ
  pub content_language : Option Text
  pub etag : Option Text
  pub last_modified : Option Text
  pub link_headers : List LinkHeader
  pub conditionals : ConditionalHeaders
  pub extra : HashMap Text

-- `RepresentationMetadata::new`, the derived default.
unfoldable pub new : RepresentationMetadata
new = record {
  content_type = none;
  content_length = none;
  content_language = none;
  etag = none;
  last_modified = none;
  link_headers = [];
  conditionals = no_conditions;
  extra = HashMap.empty;
}

unfoldable pub with_content_type : RepresentationMetadata → Text → RepresentationMetadata
with_content_type m ct = record m { content_type = some ct }

unfoldable pub with_content_length : RepresentationMetadata → ℕ → RepresentationMetadata
with_content_length m len = record m { content_length = some len }

unfoldable pub with_content_language : RepresentationMetadata → Text → RepresentationMetadata
with_content_language m lang = record m { content_language = some lang }

unfoldable pub with_etag : RepresentationMetadata → Text → RepresentationMetadata
with_etag m etag = record m { etag = some etag }

unfoldable pub with_last_modified : RepresentationMetadata → Text → RepresentationMetadata
with_last_modified m date = record m { last_modified = some date }

unfoldable pub with_link : RepresentationMetadata → LinkHeader → RepresentationMetadata
with_link m l = record m { link_headers = m.link_headers ++ l ∷ [] }

unfoldable pub with_conditionals :
    RepresentationMetadata → ConditionalHeaders → RepresentationMetadata
with_conditionals m cond = record m { conditionals = cond }

unfoldable pub add_ldp_resource_link : RepresentationMetadata → RepresentationMetadata
unfolding with_link link
add_ldp_resource_link m =
    with_link m (link (text "http://www.w3.org/ns/ldp#Resource") (text "type"))

unfoldable pub add_ldp_container_link : RepresentationMetadata → RepresentationMetadata
unfolding with_link link
add_ldp_container_link m =
    with_link m (link (text "http://www.w3.org/ns/ldp#BasicContainer") (text "type"))

unfoldable pub with_acl : RepresentationMetadata → Text → RepresentationMetadata
unfolding link
with_acl m acl_url = record m { link_headers = m.link_headers ++ link acl_url (text "acl") ∷ [] }
