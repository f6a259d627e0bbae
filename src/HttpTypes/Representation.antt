-- ===== src/HttpTypes/Representation.antt =====
-- http-types/src/representation.rs: a body, `bytes` here and `data` in the source, with its metadata.
use solid_community_rs.Prelude.{
  ℕ, ◌*◌, ◌≤◌, ◌≡◌, refl, Bool, true, false, List, [], ◌∷◌, Option, some, arith, Text, length,
  length-append,
}
use solid_community_rs.Prelude.Split.{utf8_char, utf8}
use solid_community_rs.HttpTypes.Metadata
use solid_community_rs.HttpTypes.Metadata.{
  RepresentationMetadata, with_content_type, with_content_length,
}

pub record Representation : Type 0 where
  pub bytes : List ℕ
  pub metadata : RepresentationMetadata

unfoldable pub new : List ℕ → RepresentationMetadata → Representation
new bytes metadata = record { bytes = bytes; metadata = metadata }

unfoldable pub empty : RepresentationMetadata → Representation
empty metadata = record { bytes = []; metadata = metadata }

-- `from_bytes`; the length of a body fits in 64 bits.
unfoldable pub from_bytes : List ℕ → Text → Representation
unfolding new with_content_type with_content_length Metadata.new
from_bytes bytes content_type =
    new bytes (with_content_length (with_content_type Metadata.new content_type) (length bytes))

-- `from_text`: `len` and `into_bytes` are those of the UTF-8 bytes.
unfoldable pub from_text : Text → Text → Representation
unfolding new with_content_type with_content_length Metadata.new utf8
from_text s content_type =
    new (utf8 s)
      (with_content_length (with_content_type Metadata.new content_type) (length (utf8 s)))

unfoldable pub is_empty : Representation → Bool
is_empty r = elim r.bytes [ [] ↦ true | _ ∷ _ ↦ false ]

unfoldable pub content_type : Representation → Option Text
content_type r = r.metadata.content_type

utf8_char_bounds : (c : ℕ) → (1 ≤ length (utf8_char c)) × (length (utf8_char c) ≤ 4)
unfolding utf8_char
utf8_char_bounds c = (ground arith, ground arith)

utf8_bounds : (s : Text) → (length s ≤ length (utf8 s)) × (length (utf8 s) ≤ 4 * length s)
unfolding utf8
utf8_bounds [] = (omega arith, omega arith)
utf8_bounds (c ∷ s) =
    let (low, high) = utf8_char_bounds c in
    let (from, to) = utf8_bounds s in
    let sum = length-append (utf8_char c) (utf8 s) in
    (omega (arith, sum, low, from), omega (arith, sum, high, to))

-- A representation of a text has a content length between the number of its characters and four
-- times that number, which is the number of bytes of its body, and the content type that is given.
pub from_text_bounds :
    (s type : Text)
    → let r = from_text s type in
      (n : ℕ) × (r.metadata.content_length ≡ some n)
      × (n ≡ length r.bytes)
      × (length s ≤ n)
      × (n ≤ 4 * length s)
      × (content_type r ≡ some type)
unfolding from_text new with_content_type with_content_length Metadata.new content_type
from_text_bounds s type =
    let (low, high) = utf8_bounds s in (length (utf8 s), refl, refl, low, high, refl)
