-- ===== src/Network/Targets.antt =====
-- The target functions of ospd/network.py, in the source's order. What the library socket does with
-- addresses, and the pattern of a hostname, are the parameter `Sockets`. `none` is the result None.
pub mod Hosts
pub mod Ranges
pub mod Blocks
mod Tests
use ospd_openvas.Py.TextList.{fromkeys}
use ospd_openvas.Py.Number.{neg, int}
use ospd_openvas.Prelude.{
  drop, take, not, ◌-◌, length, ◌==◌, zero, ◌&&◌, ◌++◌, ltb, ◌%◌, ◌^◌, leb, ◌+◌, ◌/◌, ◌||◌, true,
  if◌then◌else◌, some, false, suc, map, ◌*◌, replicate, none, List, Option, ℕ, Bool, [], ◌∷◌,
}
use ospd_openvas.Py.Text.{strip, strip_char, split, Text}
use ospd_openvas.Prelude.Int.{ℤ, pos, ltb_ℤ, pos_part}
use ospd_openvas.Py.Order.{range}
use ospd_openvas.Network.Ports.{is_empty}

-- `inet_pton` for both families, with none for an error, and `inet_ntoa` and `inet_ntop`;
-- `is_hostname` is the match of [\w.-]+ up to the end.
pub record Sockets : Type 0 where
  pub pton4 : Text → Option (List ℕ)
  pub pton6 : Text → Option (List ℕ)
  pub ntoa : List ℕ → Text
  pub ntop6 : List ℕ → Text
  pub is_hostname : Text → Bool

-- The number that bytes spell, the first one the highest: `struct.unpack`, or `int(hexlify(..), 16)`.
unfoldable pub unpack : ℕ → List ℕ → ℕ
unpack high [] = high
unpack high (b ∷ bytes) = unpack (high * 256 + b) bytes

-- `struct.pack` of a number in so many bytes.
unfoldable pub pack : ℕ → ℕ → List ℕ
pack zero value = []
pack (suc n) value = pack n (value / 256) ++ ((value % 256) ∷ [])

-- `a < b` on bytes.
unfoldable pub bytes_lt : List ℕ → List ℕ → Bool
bytes_lt [] [] = false
bytes_lt [] (c ∷ b) = true
bytes_lt (c ∷ a) [] = false
bytes_lt (c ∷ a) (d ∷ b) = let rest = bytes_lt a b in if ltb c d then true else (c == d) && rest

-- `a | b` on numbers of at most `w` bits.
unfoldable pub bit_or : ℕ → ℕ → ℕ → ℕ
bit_or zero a b = 0
bit_or (suc w) a b =
    let rest = bit_or w (a / 2) (b / 2) in
    2 * rest + (if (a % 2 == 1) || (b % 2 == 1) then 1 else 0)

-- The two parts of a text with one separator.
abbrev pub two_parts : List Text → Option (Text × Text)
two_parts (a ∷ b ∷ []) = some (a, b)
two_parts _ = none

infixl 5 ◌>=>◌
abbrev pub ◌>=>◌ : {A B : Type 0} → Option A → (A → Option B) → Option B
none >=> f = none
some a >=> f = f a

-- `if test: return None`
abbrev pub unless : {A : Type 0} → Bool → Option A → Option A
unless true result = none
unless false result = result

abbrev pub hex_digit : ℕ → Option ℕ
hex_digit c =
    if leb b'0' c && leb c b'9'
    then some (c - b'0')
    else if leb b'a' c && leb c b'f'
    then some (c - b'a' + 10)
    else if leb b'A' c && leb c b'F'
    then some (c - b'A' + 10)
    else none

-- The hexadecimal digits behind `acc`, as `scan` reads decimal ones.
unfoldable pub scan_hex : Text → ℕ → Bool → Option ℕ
scan_hex [] acc fresh = if fresh then none else some acc
scan_hex (c ∷ s) acc fresh =
    let behind = scan_hex s acc true in
    elim (hex_digit c) [
      | some d ↦ scan_hex s (acc * 16 + d) false
      | none ↦ if (c == b'_') && not fresh then behind else none
    ]

-- A prefix 0x or 0X may stand first, and an underscore behind it.
abbrev hex_number : Text → Option ℕ
hex_number (zero_char ∷ x ∷ d ∷ s) =
    if (zero_char == b'0') && ((x == b'x') || (x == b'X'))
    then scan_hex (if d == b'_' then s else d ∷ s) 0 true
    else scan_hex (zero_char ∷ x ∷ d ∷ s) 0 true
hex_number s = scan_hex s 0 true

abbrev signed_hex : Text → Option ℤ
signed_hex [] = none
signed_hex (c ∷ s) =
    if c == b'-'
    then elim (hex_number s) [ none ↦ none | some n ↦ some (neg n) ]
    else if c == b'+'
    then elim (hex_number s) [ none ↦ none | some n ↦ some (pos n) ]
    else elim (hex_number (c ∷ s)) [ none ↦ none | some n ↦ some (pos n) ]

-- `int(s, 16)`
unfoldable pub int_hex : Text → Option ℤ
int_hex s = signed_hex (strip s)

-- `bytes(n)`: as many zero bytes.
abbrev pub zero_bytes : ℕ → List ℕ
zero_bytes n = replicate n 0

-- `packed[3]`, the last byte of an IPv4 address.
abbrev pub last_octet : List ℕ → ℕ
last_octet (a ∷ b ∷ c ∷ d ∷ []) = d
last_octet _ = 0

-- `if target_list: new_list.extend(target_list)`, in front of what the rest of the loop adds.
abbrev pub extend : Option (List Text) → Option (List Text) → Option (List Text)
extend none rest = none
extend (some []) rest = none
extend (some (host ∷ hosts)) none = none
extend (some (host ∷ hosts)) (some rest) = some ((host ∷ hosts) ++ rest)

module _ (sockets : Sockets) where
  abbrev pub alone : {A : Type 0} → Text → Option A → Option (List Text)
  alone target none = none
  alone target (some _) = some (target ∷ [])

  unfoldable pub target_to_ipv4 : Text → Option (List Text)
  target_to_ipv4 target = alone target (sockets.pton4 target)

  unfoldable pub target_to_ipv6 : Text → Option (List Text)
  target_to_ipv6 target = alone target (sockets.pton6 target)

  unfoldable pub ipv4_range_to_list : List ℕ → List ℕ → List Text
  ipv4_range_to_list start_packed end_packed =
      map (λ value. sockets.ntoa (pack 4 value))
        (range (unpack 0 start_packed) (suc (unpack 0 end_packed)))

  -- `start_value` is what the bytes of `bytes(start_packed[3])` spell.
  unfoldable pub target_to_ipv4_short : Text → Option (List Text)
  target_to_ipv4_short target = two_parts (split b'-' target) >=> λ (first, second).
      sockets.pton4 first >=> λ start_packed. int second >=> λ end_value.
      let start_value = unpack 0 (zero_bytes (last_octet start_packed)) in
      unless
        (ltb_ℤ end_value (pos 0)
          || (ltb_ℤ (pos 255) end_value || ltb_ℤ end_value (pos start_value)))
        (some (ipv4_range_to_list start_packed (take 3 start_packed ++ (pos_part end_value ∷ []))))

  -- `>>` and `<<` divide and multiply by powers of 2.
  unfoldable pub target_to_ipv4_cidr : Text → Option (List Text)
  target_to_ipv4_cidr target = two_parts (split b'/' target) >=> λ (first, second).
      sockets.pton4 first >=> λ start_packed. int second >=> λ size.
      let block = pos_part size in
      let start_value = unpack 0 start_packed / 2 ^ (32 - block) * 2 ^ (32 - block) + 1 in
      let end_value = bit_or 32 start_value (4294967295 / 2 ^ block) - 1 in
      unless (not (ltb_ℤ (pos 0) size) || ltb_ℤ (pos 30) size)
        (some (ipv4_range_to_list (pack 4 start_value) (pack 4 end_value)))

  unfoldable pub ipv6_range_to_list : List ℕ → List ℕ → List Text
  ipv6_range_to_list start_packed end_packed =
      map (λ value. sockets.ntop6 (pack 8 (value / 2 ^ 64) ++ pack 8 (value % 2 ^ 64)))
        (range (unpack 0 start_packed) (suc (unpack 0 end_packed)))

  unfoldable pub target_to_ipv6_cidr : Text → Option (List Text)
  target_to_ipv6_cidr target = two_parts (split b'/' target) >=> λ (first, second).
      sockets.pton6 first >=> λ start_packed. int second >=> λ size.
      let block = pos_part size in
      let start_value = unpack 0 start_packed / 2 ^ (128 - block) * 2 ^ (128 - block) + 1 in
      let end_value = bit_or 128 start_value ((2 ^ 128 - 1) / 2 ^ block) - 1 in
      unless (not (ltb_ℤ (pos 0) size) || ltb_ℤ (pos 126) size) (
        some (
          ipv6_range_to_list (pack 8 (start_value / 2 ^ 64) ++ pack 8 (start_value % 2 ^ 64))
            (pack 8 (end_value / 2 ^ 64) ++ pack 8 (end_value % 2 ^ 64))))

  unfoldable pub target_to_ipv6_short : Text → Option (List Text)
  target_to_ipv6_short target = two_parts (split b'-' target) >=> λ (first, second).
      sockets.pton6 first >=> λ start_packed. int_hex second >=> λ end_value.
      let start_value = unpack 0 (drop 14 start_packed) in
      unless
        (ltb_ℤ end_value (pos 0)
          || (ltb_ℤ (pos 65535) end_value || ltb_ℤ end_value (pos start_value)))
        (some
          (ipv6_range_to_list start_packed (take 14 start_packed ++ pack 2 (pos_part end_value))))

  -- `target_to_ipv4_long` and `target_to_ipv6_long`, by the family's functions.
  abbrev long_range :
      (Text → Option (List ℕ)) → (List ℕ → List ℕ → List Text) → Text → Option (List Text)
  long_range pton range_to_list target = two_parts (split b'-' target) >=> λ (first, second).
      pton first >=> λ start_packed. pton second >=> λ end_packed.
      unless (bytes_lt end_packed start_packed) (some (range_to_list start_packed end_packed))

  unfoldable pub target_to_ipv4_long : Text → Option (List Text)
  target_to_ipv4_long = long_range sockets.pton4 ipv4_range_to_list

  unfoldable pub target_to_ipv6_long : Text → Option (List Text)
  target_to_ipv6_long = long_range sockets.pton6 ipv6_range_to_list

  unfoldable pub target_to_hostname : Text → Option (List Text)
  target_to_hostname target =
      unless (is_empty target || ltb 255 (length target))
        (unless (not (sockets.is_hostname target)) (some (target ∷ [])))

  -- `if not new_list: new_list = ..`: None and an empty list both count as false.
  abbrev pub or_try : Option (List Text) → Option (List Text) → Option (List Text)
  or_try none next = next
  or_try (some []) next = next
  or_try (some (host ∷ hosts)) next = some (host ∷ hosts)

  unfoldable pub target_to_list : Text → Option (List Text)
  target_to_list target = or_try (target_to_ipv4 target) (
      or_try (target_to_ipv6 target) (
        or_try (target_to_ipv4_cidr target) (
          or_try (target_to_ipv6_cidr target) (
            or_try (target_to_ipv4_short target) (
              or_try (target_to_ipv4_long target) (
                or_try (target_to_ipv6_short target)
                  (or_try (target_to_ipv6_long target) (target_to_hostname target))))))))

  -- The hosts of all the targets, or none where one of them is invalid.
  abbrev pub hosts_of_items : List Text → Option (List Text)
  hosts_of_items [] = some []
  hosts_of_items (target ∷ items) = extend (target_to_list (strip target)) (hosts_of_items items)

  -- The list without repetitions, or the empty list.
  abbrev pub list_or_empty : Option (List Text) → List Text
  list_or_empty none = []
  list_or_empty (some hosts) = fromkeys [] hosts

  unfoldable pub target_str_to_list : Text → Option (List Text)
  target_str_to_list [] = none
  target_str_to_list (c ∷ s) =
      some (list_or_empty (hosts_of_items (split b',' (strip_char b',' (c ∷ s)))))
