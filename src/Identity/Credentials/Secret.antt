-- ===== src/Identity/Credentials/Secret.antt =====
-- identity/src/client_credentials.rs, `generate_secret`: the bytes of eight UUIDs as hexadecimal
-- digits. The UUIDs are arguments, each a list of its 16 bytes.
use solid_community_rs.Prelude.{
  sym, append-nil, append_assoc, ℕ, ◌+◌, ◌-◌, ◌*◌, ◌/◌, ◌%◌, ◌≤◌, ◌<◌, ◌≡◌, ◌⊎◌, inl, inr, refl, ap,
  ◌∙◌, List, [], ◌∷◌, ◌++◌, arith, Text, length, length-append, All, ltb, Bool-cases, if◌then◌else◌,
}

unfoldable pub digit : ℕ → ℕ
digit n = if ltb n 10 then b'0' + n else b'a' + (n - 10)

-- `{b:02x}`
abbrev pub two_digits : ℕ → Text
two_digits b = digit (b / 16) ∷ digit (b % 16) ∷ []

-- The inner loop.
unfoldable pub write_bytes : List ℕ → Text → Text
unfolding digit
write_bytes [] s = s
write_bytes (b ∷ bs) s = write_bytes bs (s ++ two_digits b)

unfoldable pub write_uuids : List (List ℕ) → Text → Text
unfolding write_bytes
write_uuids [] s = s
write_uuids (u ∷ us) s = write_uuids us (write_bytes u s)

unfoldable pub generate_secret : List (List ℕ) → Text
unfolding write_uuids
generate_secret uuids = write_uuids uuids []

-- The bytes of all UUIDs.
abbrev pub bytes_of : List (List ℕ) → List ℕ
bytes_of [] = []
bytes_of (u ∷ us) = u ++ bytes_of us

abbrev pub IsByte : ℕ → Type 0
IsByte b = b < 256

abbrev pub IsUuid : List ℕ → Type 0
IsUuid u = (length u ≡ 16) × All IsByte u

-- A digit or a letter from `a` to `f`.
abbrev pub IsHexDigit : ℕ → Type 0
IsHexDigit c = ((b'0' ≤ c) × (c ≤ b'9')) ⊎ ((b'a' ≤ c) × (c ≤ b'f'))

abbrev pub digit_value : ℕ → ℕ
digit_value c = if ltb c b'a' then c - b'0' else 10 + (c - b'a')

-- Bytes from pairs of digits.
pub read_bytes : Text → List ℕ
read_bytes [] = []
read_bytes (c ∷ []) = []
read_bytes (c ∷ d ∷ t) = (digit_value c * 16 + digit_value d) ∷ read_bytes t

digit_value-digit : (n : ℕ) → n < 16 → digit_value (digit n) ≡ n
unfolding digit
digit_value-digit n h = ground arith

digit-IsHexDigit : (n : ℕ) → n < 16 → IsHexDigit (digit n)
unfolding digit
digit-IsHexDigit n h = elim (Bool-cases (ltb n 10)) [
  | inl e ↦ rw e (inl (omega arith, ground arith))
  | inr e ↦ rw e (inr (omega arith, ground arith))
]

digits_of : List ℕ → Text
digits_of [] = []
digits_of (b ∷ bs) = two_digits b ++ digits_of bs

digits_of-append : (bs cs : List ℕ) → digits_of (bs ++ cs) ≡ digits_of bs ++ digits_of cs
unfolding digits_of
digits_of-append [] cs = refl
digits_of-append (b ∷ bs) cs = ap (λ t. two_digits b ++ t) (digits_of-append bs cs)

write_bytes_lem : (bs : List ℕ) (s : Text) → write_bytes bs s ≡ s ++ digits_of bs
unfolding write_bytes digits_of
write_bytes_lem [] s = sym (append-nil s)
write_bytes_lem (b ∷ bs) s =
    write_bytes_lem bs (s ++ two_digits b) ∙ append_assoc s (two_digits b) (digits_of bs)

write_uuids_lem : (us : List (List ℕ)) (s : Text) → write_uuids us s ≡ s ++ digits_of (bytes_of us)
unfolding write_uuids digits_of
write_uuids_lem [] s = sym (append-nil s)
write_uuids_lem (u ∷ us) s =
    write_uuids_lem us (write_bytes u s)
    ∙ ap (λ t. t ++ digits_of (bytes_of us)) (write_bytes_lem u s)
    ∙ append_assoc s (digits_of u) (digits_of (bytes_of us))
    ∙ ap (λ t. s ++ t) (sym (digits_of-append u (bytes_of us)))

digits_of_lem :
    (bs : List ℕ)
    → All IsByte bs
    → (length (digits_of bs) ≡ 2 * length bs)
      × All IsHexDigit (digits_of bs)
      × (read_bytes (digits_of bs) ≡ bs)
unfolding digits_of read_bytes
digits_of_lem [] h = (refl, tt, refl)
digits_of_lem (b ∷ bs) h =
    let (count, hex, back) = digits_of_lem bs h.1 in
    let high : b / 16 < 16 = omega (arith, h.0) in
    let low : b % 16 < 16 = omega arith in
    let same : digit_value (digit (b / 16)) * 16 + digit_value (digit (b % 16)) ≡ b =
      omega (arith, digit_value-digit (b / 16) high, digit_value-digit (b % 16) low) in
    (
      omega (arith, count),
      (digit-IsHexDigit (b / 16) high, (digit-IsHexDigit (b % 16) low, hex)),
      cc (same, back),
    )

bytes_of-IsByte :
    (us : List (List ℕ))
    → All IsUuid us
    → (length (bytes_of us) ≡ 16 * length us) × All IsByte (bytes_of us)
bytes_of-IsByte [] h = (refl, tt)
bytes_of-IsByte (u ∷ us) h =
    let (count, bytes) = bytes_of-IsByte us h.1 in
    (
      omega (arith, count, h.0.0, length-append u (bytes_of us)),
      All-append u (bytes_of us) h.0.1 bytes,
    )
  where
    All-append : (p q : List ℕ) → All IsByte p → All IsByte q → All IsByte (p ++ q)
    All-append [] q a b = b
    All-append (x ∷ p) q a b = (a.0, All-append p q a.1 b)

-- The secret of eight UUIDs has 256 characters, all of them hexadecimal digits, and all bytes of the
-- UUIDs can be read back from it.
pub generate_secret_lem :
    (us : List (List ℕ))
    → length us ≡ 8
    → All IsUuid us
    → (length (generate_secret us) ≡ 256)
      × All IsHexDigit (generate_secret us)
      × (read_bytes (generate_secret us) ≡ bytes_of us)
unfolding generate_secret
generate_secret_lem us eight uuids =
    let (count, bytes) = bytes_of-IsByte us uuids in
    let (twice, hex, back) = digits_of_lem (bytes_of us) bytes in
    rw (write_uuids_lem us []) (omega (arith, twice, count, eight), hex, back)
