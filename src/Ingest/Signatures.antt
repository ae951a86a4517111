-- ===== src/Ingest/Signatures.antt =====
-- The signature header of src/readiness_observation_ingest.rs: `v1=` and 64 lower-case hexadecimal
-- digits.
use canonical_api_server_rs.Prelude.{
  ℕ, ◌+◌, ◌-◌, ◌*◌, ◌/◌, ◌%◌, ◌<◌, ◌≡◌, refl, ap, subst, ◌∙◌, ◌↔◌, Bool, true, ◌&&◌, List, [], ◌∷◌,
  ◌++◌, Option, none, some, Text, codes, byte_length, length, All, leb, ltb, ◌==◌, if◌then◌else◌,
  strip_prefix, keep_if, keep_if-eq-some, ok_injective, Result, ok, err, ok_or, ◌>>=◌, >>=-eq-ok,
  ok_or-eq-ok, arith,
}
use canonical_api_server_rs.Ingest.{IngestError, invalid_signature}

-- The table `HEX`
abbrev pub hex_digit : ℕ → ℕ
hex_digit n = if ltb n 10 then b'0' + n else b'a' + (n - 10)

unfoldable pub hex_lower : List ℕ → Text
hex_lower [] = []
hex_lower (byte ∷ bytes) = hex_digit (byte / 16) ∷ hex_digit (byte % 16) ∷ hex_lower bytes

unfoldable pub decode_nibble : ℕ → Option ℕ
decode_nibble c =
    if leb b'0' c && leb c b'9'
    then some (c - b'0')
    else (if leb b'a' c && leb c b'f' then some (c - b'a' + 10) else none)

-- The loop over the pairs of digits
decode_pairs : Text → Result IngestError (List ℕ)
unfolding decode_nibble
decode_pairs [] = ok []
decode_pairs (a ∷ []) = err invalid_signature
decode_pairs (a ∷ b ∷ rest) = do
  high ← ok_or (decode_nibble a) invalid_signature
  low ← ok_or (decode_nibble b) invalid_signature
  bytes ← decode_pairs rest
  ok ((high * 16 + low) ∷ bytes)

abbrev has_64_bytes : Text → Bool
has_64_bytes hex = byte_length hex == 64

unfoldable pub parse_signature : Text → Result IngestError (List ℕ)
unfolding decode_pairs
parse_signature value = do
  hex ← ok_or (keep_if has_64_bytes (strip_prefix (codes "v1=") value)) invalid_signature
  decode_pairs hex

decode_nibble_iff : (c n : ℕ) → (decode_nibble c ≡ some n) ↔ ((n < 16) × (c ≡ hex_digit n))
unfolding decode_nibble
decode_nibble_iff c n = ground arith

decode_pairs-hex_lower :
    (bytes : List ℕ) → All (λ b. b < 256) bytes → decode_pairs (hex_lower bytes) ≡ ok bytes
unfolding decode_pairs hex_lower
decode_pairs-hex_lower [] h = refl
decode_pairs-hex_lower (b ∷ bytes) (h, hs) =
    rw
      (
        (decode_nibble_iff _ (b / 16)).1 (omega arith, refl),
        (decode_nibble_iff _ (b % 16)).1 (omega arith, refl),
        decode_pairs-hex_lower bytes hs,
      )
      (ap (λ n. ok (n ∷ bytes)) (omega arith))

digits :
    {a b : ℕ} {rest : Text} (high low : ℕ) (tail : List ℕ)
    → high < 16
    → low < 16
    → a ≡ hex_digit high
    → b ≡ hex_digit low
    → rest ≡ hex_lower tail
    → a ∷ b ∷ rest ≡ hex_lower ((high * 16 + low) ∷ tail)
unfolding hex_lower
digits high low tail h l a b r =
    let first : (high * 16 + low) / 16 ≡ high = omega (arith, h, l) in
    let second : (high * 16 + low) % 16 ≡ low = omega (arith, h, l) in
    rw (a, b, r, first, second) refl

hex_lower-decode_pairs :
    (t : Text) (bytes : List ℕ)
    → decode_pairs t ≡ ok bytes
    → All (λ b. b < 256) bytes × (t ≡ hex_lower bytes)
unfolding decode_pairs hex_lower
hex_lower-decode_pairs [] bytes h =
    subst (λ bs. All (λ n. n < 256) bs × ([] ≡ hex_lower bs)) (ok_injective h) (tt, refl)
hex_lower-decode_pairs (a ∷ []) bytes h = cc
hex_lower-decode_pairs (a ∷ b ∷ rest) bytes h =
    let (high, x, h1) = >>=-eq-ok _ _ h in
    let (low, y, h2) = >>=-eq-ok _ _ h1 in
    let (tail, z, h3) = >>=-eq-ok _ _ h2 in
    let (high_lt, a_eq) = (decode_nibble_iff a high).0 (ok_or-eq-ok _ _ x) in
    let (low_lt, b_eq) = (decode_nibble_iff b low).0 (ok_or-eq-ok _ _ y) in
    let (small, rest_eq) = hex_lower-decode_pairs rest tail z in
    let encoded : a ∷ b ∷ rest ≡ hex_lower ((high * 16 + low) ∷ tail) =
      digits high low tail high_lt low_lt a_eq b_eq rest_eq in
    subst (λ bs. All (λ n. n < 256) bs × (a ∷ b ∷ rest ≡ hex_lower bs)) (ok_injective h3)
      ((omega (arith, high_lt, low_lt), small), encoded)

byte_length-hex_lower :
    (bytes : List ℕ) → All (λ b. b < 256) bytes → byte_length (hex_lower bytes) ≡ 2 * length bytes
unfolding byte_length hex_lower
byte_length-hex_lower [] h = refl
byte_length-hex_lower (b ∷ bytes) (h, hs) = ground (arith, byte_length-hex_lower bytes hs)

strip_prefix-eq-some : (p s t : Text) → strip_prefix p s ≡ some t → s ≡ p ++ t
strip_prefix-eq-some [] s t h = ground (arith, h)
strip_prefix-eq-some (c ∷ p) [] t h = ground (arith, h)
strip_prefix-eq-some (c ∷ p) (d ∷ s) t h = ground (arith, h, strip_prefix-eq-some p s t)

parse_stripped :
    (hex : Text) (bytes : List ℕ)
    → byte_length hex ≡ 64
    → decode_pairs hex ≡ ok bytes
    → parse_signature (codes "v1=" ++ hex) ≡ ok bytes
unfolding parse_signature
parse_stripped hex bytes n d =
    rw ((keep_if-eq-some has_64_bytes (some hex) hex).1 (refl, ground (arith, n))) d

half :
    (hex : Text) (bytes : List ℕ)
    → hex ≡ hex_lower bytes
    → byte_length (hex_lower bytes) ≡ 2 * length bytes
    → has_64_bytes hex ≡ true
    → length bytes ≡ 32
half hex bytes same size h = let n = ap byte_length same in ground (arith, n, size, h)

-- A signature header is read as `bytes` exactly when it is `v1=` and the lower-case hexadecimal
-- digits of `bytes`, which are 32 bytes.
pub parse_signature_iff :
    (value : Text) (bytes : List ℕ)
    → (parse_signature value ≡ ok bytes)
      ↔ ((value ≡ codes "v1=" ++ hex_lower bytes) × (length bytes ≡ 32) × All (λ b. b < 256) bytes)
unfolding parse_signature
parse_signature_iff value bytes = (
  λ h.
      let (hex, x, d) = >>=-eq-ok _ _ h in
      let (stripped, sixty_four) =
        (keep_if-eq-some has_64_bytes (strip_prefix (codes "v1=") value) hex).0
          (ok_or-eq-ok _ _ x) in
      let (small, digits_eq) = hex_lower-decode_pairs hex bytes d in
      let size = byte_length-hex_lower bytes small in
      (
        strip_prefix-eq-some (codes "v1=") value hex stripped
            ∙ ap (λ t. codes "v1=" ++ t) digits_eq,
        half hex bytes digits_eq size sixty_four,
        small,
      ),
  λ (v, n, small). rw v (
      parse_stripped (hex_lower bytes) bytes (byte_length-hex_lower bytes small ∙ ap (λ k. 2 * k) n)
        (decode_pairs-hex_lower bytes small)),
)
