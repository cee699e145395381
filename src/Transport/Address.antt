-- ===== src/Transport/Address.antt =====
-- address.rs of dns-transport/src: the addresses that users give. Texts are their bytes.
pub mod Parts
pub mod Safe
use dog.Prelude.{
  ℕ, zero, suc, ◌+◌, ◌-◌, ◌*◌, Option, none, some, Bool, true, false, not, ◌&&◌, ◌||◌, List, [],
  ◌∷◌, ◌++◌, codes, leb, ◌==◌, if◌then◌else◌, ◌≡◌,
}
use dog.Transport.Errors.{
  AddressReason, is_url, unclosed_bracket, not_a_port_follows, no_host, not_a_host, not_a_port,
  not_graphic, not_https, no_path, has_user, bad_authority, Error, invalid_nameserver, Result, ok,
  err, ◌>>=◌,
}

-- std's parsers of IP addresses: whether they accept a text. No address is the empty text.
pub record IpParser : Type 0 where
  pub is_ipv6 : List ℕ → Bool
  pub is_ipv6-nil : is_ipv6 [] ≡ false
  pub is_ip : List ℕ → Bool

-- `u8::is_ascii_graphic`
abbrev pub is_ascii_graphic : ℕ → Bool
is_ascii_graphic c = leb 33 c && leb c 126

-- `u8::is_ascii_alphanumeric`
abbrev pub is_ascii_alphanumeric : ℕ → Bool
is_ascii_alphanumeric c =
    (leb b'0' c && leb c b'9') || ((leb b'A' c && leb c b'Z') || (leb b'a' c && leb c b'z'))

-- `bytes().all(...)`
unfoldable pub all_bytes : (ℕ → Bool) → List ℕ → Bool
all_bytes test [] = true
all_bytes test (c ∷ cs) = test c && all_bytes test cs

unfoldable pub strip_prefix : List ℕ → List ℕ → Option (List ℕ)
strip_prefix [] text = some text
strip_prefix (p ∷ prefix) [] = none
strip_prefix (p ∷ prefix) (c ∷ text) = if p == c then strip_prefix prefix text else none

abbrev pub starts_with : List ℕ → List ℕ → Bool
starts_with prefix text = elim (strip_prefix prefix text) [ some rest ↦ true | none ↦ false ]

-- `str::contains`
unfoldable pub contains : List ℕ → List ℕ → Bool
contains needle [] = starts_with needle []
contains needle (c ∷ text) = starts_with needle (c ∷ text) || contains needle text

-- What stands before the first of a byte, and the rest with it.
abbrev pub behind_byte : ℕ → Option (List ℕ × List ℕ) → Option (List ℕ × List ℕ)
behind_byte c none = none
behind_byte c (some (before, rest)) = some (c ∷ before, rest)

-- `find` and `split_at`
unfoldable pub split_before : ℕ → List ℕ → Option (List ℕ × List ℕ)
split_before byte [] = none
split_before byte (c ∷ text) =
    if c == byte then some ([], c ∷ text) else behind_byte c (split_before byte text)

unfoldable pub split_once : ℕ → List ℕ → Option (List ℕ × List ℕ)
split_once byte [] = none
split_once byte (c ∷ text) =
    if c == byte then some ([], text) else behind_byte c (split_once byte text)

-- The step of `rsplit_once`: a byte further on is the last one.
abbrev pub or_here : ℕ → ℕ → List ℕ → Option (List ℕ × List ℕ) → Option (List ℕ × List ℕ)
or_here byte c text none = if c == byte then some ([], text) else none
or_here byte c text (some (before, rest)) = some (c ∷ before, rest)

unfoldable pub rsplit_once : ℕ → List ℕ → Option (List ℕ × List ℕ)
rsplit_once byte [] = none
rsplit_once byte (c ∷ text) = or_here byte c text (rsplit_once byte text)

-- The digits of std's `parse` of an unsigned number, which overflow behind its greatest one.
unfoldable pub parse_digits : ℕ → ℕ → List ℕ → Option ℕ
parse_digits max value [] = some value
parse_digits max value (c ∷ cs) =
    let next = value * 10 + (c - b'0') in
    if (leb b'0' c && leb c b'9') && leb next max then parse_digits max next cs else none

-- std's `parse`, which takes a sign before a digit.
unfoldable pub parse_unsigned : ℕ → List ℕ → Option ℕ
parse_unsigned max [] = none
parse_unsigned max (c ∷ []) = parse_digits max 0 (c ∷ [])
parse_unsigned max (c ∷ d ∷ cs) =
    if c == b'+' then parse_digits max 0 (d ∷ cs) else parse_digits max 0 (c ∷ d ∷ cs)

-- `invalid`
abbrev pub invalid {ℓ} : {A : Type ℓ} → List ℕ → AddressReason → Result A
invalid addr reason = err (invalid_nameserver addr reason)

-- The `match` on what follows the bracket.
abbrev pub bracket_port :
    List ℕ → List ℕ → List ℕ → Option (List ℕ) → Result (List ℕ × Option (List ℕ))
bracket_port addr host rest (some port) = ok (host, some port)
bracket_port addr host [] none = ok (host, none)
bracket_port addr host (c ∷ rest) none = invalid addr not_a_port_follows

abbrev pub close_bracket : List ℕ → Option (List ℕ × List ℕ) → Result (List ℕ × Option (List ℕ))
close_bracket addr none = invalid addr unclosed_bracket
close_bracket addr (some (host, rest)) = bracket_port addr host rest (strip_prefix (b':' ∷ []) rest)

abbrev pub split_bracketed : List ℕ → List ℕ → Result (List ℕ × Option (List ℕ))
split_bracketed addr bracketed = close_bracket addr (split_once b']' bracketed)

-- `map_or((addr, None), |(host, port)| (host, Some(port)))`
abbrev pub last_colon : List ℕ → Option (List ℕ × List ℕ) → List ℕ × Option (List ℕ)
last_colon addr none = (addr, none)
last_colon addr (some (host, port)) = (host, some port)

-- The `match` on the opening bracket.
abbrev pub split_address : List ℕ → Option (List ℕ) → Result (List ℕ × Option (List ℕ))
split_address addr (some bracketed) = split_bracketed addr bracketed
split_address addr none = ok (last_colon addr (rsplit_once b':' addr))

abbrev pub port_number : List ℕ → List ℕ → Option ℕ → Result (List ℕ × ℕ)
port_number addr host (some port) = ok (host, port)
port_number addr host none = invalid addr not_a_port

-- The `match` on the port.
abbrev pub with_port : List ℕ → ℕ → List ℕ → Option (List ℕ) → Result (List ℕ × ℕ)
with_port addr default_port host none = ok (host, default_port)
with_port addr default_port host (some port) = port_number addr host (parse_unsigned 65535 port)

abbrev pub is_empty : List ℕ → Bool
is_empty [] = true
is_empty (c ∷ cs) = false

pub record HttpsUrl : Type 0 where
  pub host : List ℕ
  pub port : ℕ
  pub path : List ℕ

-- `map_err` with the one error of the authority.
abbrev pub or_invalid {ℓ} : {A : Type ℓ} → List ℕ → AddressReason → Result A → Result A
or_invalid url reason (err e) = invalid url reason
or_invalid url reason r = r

-- The path up to a fragment.
abbrev pub without_fragment : List ℕ → Option (List ℕ × List ℕ) → List ℕ
without_fragment path none = path
without_fragment path (some (before, fragment)) = before

module _ ⦃P : IpParser⦄ where
  unfoldable pub is_host : List ℕ → Bool
  is_host host =
      P.is_ip host
      || all_bytes (λ b. is_ascii_alphanumeric b || (b == b'-' || (b == b'_' || b == b'.'))) host

  unfoldable pub parse_host_port : List ℕ → ℕ → Result (List ℕ × ℕ)
  parse_host_port addr default_port =
      if contains (codes "://") addr
      then invalid addr is_url
      else if P.is_ipv6 addr
      then ok (addr, default_port)
      else do
        (host, port) ← split_address addr (strip_prefix (b'[' ∷ []) addr)
        if is_empty host
            then invalid addr no_host
            else if is_host host
            then with_port addr default_port host port
            else invalid addr not_a_host

  -- The authority and the path of the URL.
  unfoldable pub parse_parts : List ℕ → Option (List ℕ × List ℕ) → Result HttpsUrl
  parse_parts url none = invalid url no_path
  parse_parts url (some (authority, path)) =
      if contains (b'@' ∷ []) authority then invalid url has_user else do
        (host, port) ← or_invalid url bad_authority (parse_host_port authority 443)
        ok (record {
          host = host;
          port = port;
          path = without_fragment path (split_once b'#' path);
        })

  abbrev pub parse_rest : List ℕ → Option (List ℕ) → Result HttpsUrl
  parse_rest url none = invalid url not_https
  parse_rest url (some rest) = parse_parts url (split_before b'/' rest)

  unfoldable pub parse_https_url : List ℕ → Result HttpsUrl
  parse_https_url url =
      if all_bytes is_ascii_graphic url
      then parse_rest url (strip_prefix (codes "https://") url)
      else invalid url not_graphic
