-- ===== src/Transport/Address/Safe.antt =====
-- A URL that is accepted has nothing in its path that would end a line of a request.
use dog.Prelude.{
  ℕ, ◌≤◌, ◌≡◌, ◌≢◌, refl, sym, ap, ◌∙◌, inl, inr, Option, none, some, true, false, Bool-cases, List,
  [], ◌∷◌, arith, codes, ◌==◌, ==→ne, All,
}
use dog.Transport.Errors.{bad_authority, AddressReason, Result, ok, err, panic, out_of_fuel}
use dog.Transport.Ends.{Ends, Ends-bind, Ends-if}
use dog.Transport.Address.{
  IpParser, is_ascii_graphic, all_bytes, strip_prefix, contains, behind_byte, split_before,
  split_once, parse_unsigned, split_address, port_number, with_port, is_empty, HttpsUrl, or_invalid,
  without_fragment, is_host, parse_host_port, parse_parts, parse_rest, parse_https_url,
}
use dog.Transport.Address.Parts.{
  IsGraphic, Holds, Both, Host, Begins, all_bytes-IsGraphic, strip_prefix-All, split_before-All,
  split_once-All, split_address-All, split_before-Begins, parse_unsigned-fits,
}

-- What a URL may hold for an HTTP request to be written with it.
pub record IsSafe (url : HttpsUrl) : Type 0 where
  pub graphic_host : All IsGraphic url.host
  pub has_host : url.host ≢ []
  pub port_fits : url.port ≤ 65535
  pub graphic_path : All IsGraphic url.path
  pub no_fragment : All (λ c. c ≢ b'#') url.path
  pub absolute : (rest : List ℕ) × (url.path ≡ b'/' ∷ rest)

-- A host and a port.
abbrev IsTarget : List ℕ × ℕ → Type 0
IsTarget (host, port) = All IsGraphic host × (host ≢ []) × (port ≤ 65535)

port_number-IsTarget :
    (addr host : List ℕ) (port : Option ℕ)
    → All IsGraphic host
    → host ≢ []
    → Holds (λ p. p ≤ 65535) port
    → Ends IsTarget (port_number addr host port)
port_number-IsTarget addr host none h n k = tt
port_number-IsTarget addr host (some port) h n k = (h, n, k)

with_port-IsTarget :
    (addr : List ℕ) (default_port : ℕ) (host : List ℕ) (port : Option (List ℕ))
    → All IsGraphic host
    → host ≢ []
    → default_port ≤ 65535
    → Ends IsTarget (with_port addr default_port host port)
with_port-IsTarget addr default_port host none h n d = (h, n, d)
with_port-IsTarget addr default_port host (some port) h n d =
    port_number-IsTarget addr host (parse_unsigned 65535 port) h n (parse_unsigned-fits 65535 port)

is_empty-nonempty : (host : List ℕ) → is_empty host ≡ false → host ≢ []
is_empty-nonempty [] h e = cc
is_empty-nonempty (c ∷ cs) h e = cc

or_invalid-Ends :
    {A : Type 0} (P : A → Type 0) (url : List ℕ) (reason : AddressReason) (m : Result A)
    → Ends P m
    → Ends P (or_invalid url reason m)
or_invalid-Ends P url reason (ok x) h = h
or_invalid-Ends P url reason (err e) h = tt
or_invalid-Ends P url reason panic h = absurd h
or_invalid-Ends P url reason out_of_fuel h = absurd h

-- The path without its fragment.
abbrev IsPath : List ℕ → Type 0
IsPath path =
    All IsGraphic path × All (λ c. c ≢ b'#') path × ((rest : List ℕ) × (path ≡ b'/' ∷ rest))

without_fragment-behind_byte :
    (c : ℕ) (text : List ℕ) (parts : Option (List ℕ × List ℕ))
    → without_fragment (c ∷ text) (behind_byte c parts) ≡ c ∷ without_fragment text parts
without_fragment-behind_byte c text none = refl
without_fragment-behind_byte c text (some (before, rest)) = refl

-- Any byte but the one that is looked for stays.
stays :
    (byte c : ℕ) (text : List ℕ)
    → (c == byte) ≡ false
    → without_fragment (c ∷ text) (split_once byte (c ∷ text))
      ≡ c ∷ without_fragment text (split_once byte text)
unfolding split_once
stays byte c text other =
    rw (other, split_once) (without_fragment-behind_byte c text (split_once byte text))

no_byte :
    (byte : ℕ) (text : List ℕ) → All (λ c. c ≢ byte) (without_fragment text (split_once byte text))
unfolding split_once
no_byte byte [] = tt
no_byte byte (c ∷ text) = elim (Bool-cases (c == byte)) [
  | inl same ↦ rw (same, split_once) tt
  | inr other ↦ rw (stays byte c text other) (==→ne c byte other, no_byte byte text)
]

without_fragment-All :
    (path : List ℕ) (parts : Option (List ℕ × List ℕ))
    → All IsGraphic path
    → Holds (Both IsGraphic) parts
    → All IsGraphic (without_fragment path parts)
without_fragment-All path none h k = h
without_fragment-All path (some (before, rest)) h k = k.0

without_fragment-IsPath :
    (rest : List ℕ)
    → All IsGraphic (b'/' ∷ rest)
    → IsPath (without_fragment (b'/' ∷ rest) (split_once b'#' (b'/' ∷ rest)))
without_fragment-IsPath rest h = (
  without_fragment-All (b'/' ∷ rest) (split_once b'#' (b'/' ∷ rest)) h
      (split_once-All IsGraphic b'#' (b'/' ∷ rest) h),
  no_byte b'#' (b'/' ∷ rest),
  (without_fragment rest (split_once b'#' rest), stays b'#' b'/' rest refl),
)

module _ ⦃P : IpParser⦄ where
  parse_host_port-IsTarget :
      (addr : List ℕ) (default_port : ℕ)
      → All IsGraphic addr
      → default_port ≤ 65535
      → Ends IsTarget (parse_host_port addr default_port)
  unfolding parse_host_port
  parse_host_port-IsTarget addr default_port graphic fits =
      Ends-if IsTarget (contains (codes "://") addr) _ _ (λ h. tt)
        λ h.
          Ends-if IsTarget (P.is_ipv6 addr) _ _
            (λ v6. (
              graphic,
              (λ nil.
                  let none_such : P.is_ipv6 [] ≡ true = sym (ap P.is_ipv6 nil) ∙ v6 in
                  cc (none_such, P.is_ipv6-nil)),
              fits,
            ))
            λ h.
              Ends-bind (Host IsGraphic) IsTarget
                (split_address addr (strip_prefix (b'[' ∷ []) addr)) _
                (split_address-All IsGraphic addr (strip_prefix (b'[' ∷ []) addr) graphic
                  (strip_prefix-All IsGraphic (b'[' ∷ []) addr graphic))
                λ parts good.
                  Ends-if IsTarget (is_empty parts.0) _ _ (λ h. tt)
                    λ nonempty.
                      Ends-if IsTarget (is_host parts.0) _ _
                        (λ h.
                          with_port-IsTarget addr default_port parts.0 parts.1 good
                            (is_empty-nonempty parts.0 nonempty) fits)
                        (λ h. tt)

  parse_parts-IsSafe :
      (url : List ℕ) (parts : Option (List ℕ × List ℕ))
      → Holds (Both IsGraphic) parts
      → Holds (Begins b'/') parts
      → Ends IsSafe (parse_parts url parts)
  unfolding parse_parts
  parse_parts-IsSafe url none h k = tt
  parse_parts-IsSafe url (some (authority, [])) h k = cc
  parse_parts-IsSafe url (some (authority, c ∷ rest)) h (more, same) =
      Ends-if IsSafe (contains (b'@' ∷ []) authority) _ _ (λ user. tt)
        λ no_user.
          Ends-bind IsTarget IsSafe (or_invalid url bad_authority (parse_host_port authority 443)) _
            (or_invalid-Ends IsTarget url bad_authority (parse_host_port authority 443)
              (parse_host_port-IsTarget authority 443 h.0 (omega arith)))
            λ target good.
              let slash : c ≡ b'/' = cc in
              let (graphic, no_fragment, absolute) : IsPath
                  (without_fragment (c ∷ rest) (split_once b'#' (c ∷ rest))) =
                rw slash (without_fragment-IsPath rest (rw (← slash) h.1)) in
              record {
                graphic_host = good.0;
                has_host = good.1;
                port_fits = good.2;
                graphic_path = graphic;
                no_fragment = no_fragment;
                absolute = absolute;
              }

  parse_rest-IsSafe :
      (url : List ℕ) (rest : Option (List ℕ))
      → Holds (All IsGraphic) rest
      → Ends IsSafe (parse_rest url rest)
  parse_rest-IsSafe url none h = tt
  parse_rest-IsSafe url (some rest) h =
      parse_parts-IsSafe url (split_before b'/' rest) (split_before-All IsGraphic b'/' rest h)
        (split_before-Begins b'/' rest)

  -- If `parse_https_url` accepts a URL, its host is not empty, the host and the path hold only
  -- printable ASCII without spaces, the port fits 16 bits, and the path begins with a slash and
  -- has no fragment, given that the empty text is not an IPv6 address.
  pub parse_https_url-IsSafe : (url : List ℕ) → Ends IsSafe (parse_https_url url)
  unfolding parse_https_url
  parse_https_url-IsSafe url =
      Ends-if IsSafe (all_bytes is_ascii_graphic url) _ _
        (λ graphic.
          parse_rest-IsSafe url (strip_prefix (codes "https://") url)
            (strip_prefix-All IsGraphic (codes "https://") url (all_bytes-IsGraphic url graphic)))
        (λ other. tt)
