-- ===== src/DataPlane/Frames.antt =====
-- The length-prefixed frames of src/web_data_plane.rs. Bytes are numbers below 256, and `usize` has
-- 64 bits, so that the cast of a length to `u32` is guarded by the code's own test.
use canonical_api_server_rs.Prelude.{
  ℕ, ◌+◌, ◌*◌, ◌/◌, ◌%◌, ◌≤◌, ◌<◌, ◌≡◌, ◌↔◌, sym, subst, ap, ◌∙◌, ◌||◌, List, [], ◌∷◌, ◌++◌, min,
  Result, ok, err, length, is_empty, ltb, ◌==◌, not, if◌then◌else◌, All, arith,
}
use canonical_api_server_rs.DataPlane.{DataPlaneError, frame_size, max_frame_bytes}

abbrev u32_max : ℕ
u32_max = 4294967295

-- `u32::to_be_bytes` and `u32::from_be_bytes`
abbrev pub to_be_bytes : ℕ → List ℕ
to_be_bytes n = (n / 16777216 % 256) ∷ (n / 65536 % 256) ∷ (n / 256 % 256) ∷ (n % 256) ∷ []

abbrev pub from_be_bytes : ℕ → ℕ → ℕ → ℕ → ℕ
from_be_bytes a b c d = a * 16777216 + b * 65536 + c * 256 + d

unfoldable pub encode_frame : List ℕ → ℕ → Result DataPlaneError (List ℕ)
encode_frame payload maximum =
    if is_empty payload
      || ltb (min maximum max_frame_bytes) (length payload)
      || ltb u32_max (length payload)
    then err frame_size
    else ok (to_be_bytes (length payload) ++ payload)

-- The payload behind a prefix that announces `size` bytes
decode_sized : ℕ → ℕ → List ℕ → Result DataPlaneError (List ℕ)
decode_sized size maximum payload =
    if size == 0 || ltb (min maximum max_frame_bytes) size || not (length payload + 4 == 4 + size)
    then err frame_size
    else ok payload

unfoldable pub decode_frame : List ℕ → ℕ → Result DataPlaneError (List ℕ)
unfolding decode_sized
decode_frame (a ∷ b ∷ c ∷ d ∷ payload) maximum =
    decode_sized (from_be_bytes a b c d) maximum payload
decode_frame _ maximum = err frame_size

abbrev pub IsByte : ℕ → Type 0
IsByte b = b < 256

to_be_bytes-from_be_bytes :
    (a b c d : ℕ)
    → All IsByte (a ∷ b ∷ c ∷ d ∷ [])
    → to_be_bytes (from_be_bytes a b c d) ≡ a ∷ b ∷ c ∷ d ∷ []
to_be_bytes-from_be_bytes a b c d h =
    let p : from_be_bytes a b c d / 16777216 % 256 ≡ a = omega arith in
    let q : from_be_bytes a b c d / 65536 % 256 ≡ b = omega arith in
    let r : from_be_bytes a b c d / 256 % 256 ≡ c = omega arith in
    let s : from_be_bytes a b c d % 256 ≡ d = omega arith in cc

decode_sized-eq-ok :
    (size maximum : ℕ) (rest payload : List ℕ)
    → decode_sized size maximum rest ≡ ok payload
    → (rest ≡ payload) × (length rest ≡ size) × (1 ≤ size) × (size ≤ min maximum max_frame_bytes)
unfolding decode_sized
decode_sized-eq-ok size maximum rest payload e = ground arith

encode_frame-eq-ok :
    (payload : List ℕ) (maximum : ℕ)
    → 1 ≤ length payload
    → length payload ≤ min maximum max_frame_bytes
    → encode_frame payload maximum ≡ ok (to_be_bytes (length payload) ++ payload)
unfolding encode_frame
encode_frame-eq-ok [] maximum h k = absurd (omega arith)
encode_frame-eq-ok (x ∷ p) maximum h k = ground arith

pub encode_frame-decode_frame :
    (frame payload : List ℕ) (maximum : ℕ)
    → All IsByte frame
    → decode_frame frame maximum ≡ ok payload
    → (encode_frame payload maximum ≡ ok frame)
      × (1 ≤ length payload)
      × (length payload ≤ min maximum max_frame_bytes)
unfolding decode_frame
encode_frame-decode_frame (a ∷ b ∷ c ∷ d ∷ rest) payload maximum h e =
    let (same, sized, positive, bounded) =
      decode_sized-eq-ok (from_be_bytes a b c d) maximum rest payload e in
    let size : length payload ≡ from_be_bytes a b c d = ap length (sym same) ∙ sized in
    let prefix : to_be_bytes (length payload) ≡ a ∷ b ∷ c ∷ d ∷ [] =
      ap to_be_bytes size ∙ to_be_bytes-from_be_bytes a b c d (omega arith) in
    (
      encode_frame-eq-ok payload maximum (omega arith) (omega arith)
          ∙ ap (λ p. ok (p ++ payload)) prefix
          ∙ ap (λ r. ok (a ∷ b ∷ c ∷ d ∷ r)) (sym same),
      omega arith,
      omega arith,
    )
encode_frame-decode_frame _ payload maximum h e = cc

encode_frame-bounds :
    (payload frame : List ℕ) (maximum : ℕ)
    → encode_frame payload maximum ≡ ok frame
    → (1 ≤ length payload)
      × (length payload ≤ min maximum max_frame_bytes)
      × (frame ≡ to_be_bytes (length payload) ++ payload)
unfolding encode_frame
encode_frame-bounds [] frame maximum e = cc
encode_frame-bounds (x ∷ p) frame maximum e = (omega arith, ground (arith, e), ground (arith, e))

to_be_bytes-IsByte :
    (n : ℕ) (payload : List ℕ) → All IsByte payload → All IsByte (to_be_bytes n ++ payload)
to_be_bytes-IsByte n payload h = (omega arith, (omega arith, (omega arith, (omega arith, h))))

decode_frame-prefixed :
    (payload : List ℕ) (maximum : ℕ)
    → 1 ≤ length payload
    → length payload ≤ min maximum max_frame_bytes
    → decode_frame (to_be_bytes (length payload) ++ payload) maximum ≡ ok payload
unfolding decode_frame decode_sized
decode_frame-prefixed payload maximum h k = ground arith

-- What the encoder does with a payload: it accepts it exactly within the limits, and the frame that
-- it makes is the only frame of bytes that the receiver reads as that payload.
pub record IsFramed (payload : List ℕ) (maximum : ℕ) : Type 0 where
  pub accepted :
      ((frame : List ℕ) × (encode_frame payload maximum ≡ ok frame))
      ↔ ((1 ≤ length payload) × (length payload ≤ min maximum max_frame_bytes))
  pub read :
      (frame : List ℕ)
      → (encode_frame payload maximum ≡ ok frame)
        ↔ (All IsByte frame × (decode_frame frame maximum ≡ ok payload))

-- A payload of bytes is encoded exactly when it is not empty and within both limits; and a frame is
-- the encoding of the payload exactly when it consists of bytes and the receiver reads that payload
-- from it.
pub decode_frame-encode_frame :
    (payload : List ℕ) (maximum : ℕ) → All IsByte payload → IsFramed payload maximum
decode_frame-encode_frame payload maximum bytes = record {
  accepted = (
    λ (frame, e). let (h, k, same) = encode_frame-bounds payload frame maximum e in (h, k),
    λ (h, k). (to_be_bytes (length payload) ++ payload, encode_frame-eq-ok payload maximum h k),
  );
  read = λ frame. (
    λ e.
        let (h, k, same) = encode_frame-bounds payload frame maximum e in
        (
          subst (All IsByte) (sym same) (to_be_bytes-IsByte (length payload) payload bytes),
          ap (λ f. decode_frame f maximum) same ∙ decode_frame-prefixed payload maximum h k,
        ),
    λ (bound, e). (encode_frame-decode_frame frame payload maximum bound e).0,
  );
}
