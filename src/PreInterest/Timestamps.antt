-- ===== src/PreInterest/Timestamps.antt =====
-- `is_rfc3339` of src/pre_interest.rs. Each byte that it accepts is ASCII, at an index that it reads,
-- so the code points of the text stand for its bytes.
use canonical_api_server_rs.Prelude.{
  ℕ, ◌+◌, ◌*◌, ◌-◌, zero, suc, Bool, not, ◌&&◌, ◌||◌, List, [], ◌∷◌, Option, none, some, Text,
  byte_length, is_ascii_digit, take, drop, all, leb, ◌==◌, if◌then◌else◌, bind_option, is_some_and,
}

-- `bytes.get(index)`
abbrev pub get_elem? : List ℕ → ℕ → Option ℕ
get_elem? [] index = none
get_elem? (b ∷ bytes) zero = some b
get_elem? (b ∷ bytes) (suc index) = get_elem? bytes index

-- `bytes.get(index) == Some(&byte)`
abbrev pub has_byte : List ℕ → ℕ → ℕ → Bool
has_byte bytes index byte = is_some_and (λ b. b == byte) (get_elem? bytes index)

unfoldable pub parse_two : List ℕ → ℕ → Option ℕ
parse_two bytes start = bind_option (get_elem? bytes start) λ first.
    bind_option (get_elem? bytes (start + 1)) λ second.
      if not (is_ascii_digit first) || not (is_ascii_digit second)
      then none
      else some ((first - b'0') * 10 + (second - b'0'))

-- Whether the two digits at an index lie between two numbers
abbrev pub two_within : List ℕ → ℕ → ℕ → ℕ → Bool
two_within bytes start low high = is_some_and (λ n. leb low n && leb n high) (parse_two bytes start)

abbrev pub has_shape : Text → Bool
has_shape value =
    leb 20 (byte_length value)
    && leb (byte_length value) 35
    && has_byte value 4 b'-'
    && has_byte value 7 b'-'
    && has_byte value 10 b'T'
    && has_byte value 13 b':'
    && has_byte value 16 b':'
    && all is_ascii_digit (take 4 value)

abbrev pub has_ranges : Text → Bool
has_ranges value =
    two_within value 5 1 12
    && two_within value 8 1 31
    && two_within value 11 0 23
    && two_within value 14 0 59
    && two_within value 17 0 60

-- The digits that the loop over the fraction passes
abbrev pub digit_run : List ℕ → ℕ
digit_run [] = 0
digit_run (b ∷ bytes) = let rest = digit_run bytes in if is_ascii_digit b then suc rest else 0

-- The index behind the fraction, if there is one; none if it has no digit.
unfoldable pub timezone_index : Text → Option ℕ
timezone_index value =
    if has_byte value 19 b'.'
    then (if digit_run (drop 20 value) == 0 then none else some (20 + digit_run (drop 20 value)))
    else some 19

abbrev pub is_timezone : Text → ℕ → Bool
is_timezone value index =
    has_byte value index b'Z' && (index + 1 == byte_length value)
    || (has_byte value index b'+' || has_byte value index b'-')
      && (index + 6 == byte_length value)
      && has_byte value (index + 3) b':'
      && two_within value (index + 1) 0 23
      && two_within value (index + 4) 0 59

unfoldable pub is_rfc3339 : Text → Bool
unfolding parse_two timezone_index
is_rfc3339 value =
    has_shape value && has_ranges value && is_some_and (is_timezone value) (timezone_index value)
