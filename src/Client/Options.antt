-- ===== src/Client/Options.antt =====
-- options.rs of src: the inputs of request generation, from the arguments that getopts took apart.
-- A text that can be the name of a type is a String; the others are lists of code points.
pub mod Parts
pub mod Deduced
use dog.Prelude.{
  ℕ, String, Option, none, some, Bool, true, false, ◌&&◌, ◌||◌, List, [], ◌∷◌, ◌++◌, codes,
  eq_ignore_ascii_case, leb, if◌then◌else◌, length, take, drop,
}
use dog.Dns.Strings.Defs.{Labels}
use dog.Dns.Strings.Encode.{Characters, InvalidName, Encoded, encoded, invalid, encode}
use dog.Dns.Records.Types.{RecordType, type_from_u16, from_type_name}
use dog.Dns.Message.{QClass, internet, chaosnet, hesiod, qclass_from_u16}
use dog.Transport.Errors.{Error, Result, ok, err, panic, out_of_fuel}
use dog.Transport.Address.{
  IpParser, is_ascii_alphanumeric, all_bytes, strip_prefix, parse_unsigned, parse_host_port,
  parse_https_url,
}
use dog.Client.Resolve.{ResolverType, system_default, specific}
use dog.Client.Generate.{TransportType, automatic, udp, tcp, tls, https, Inputs}

-- What getopts found: whether a flag is there, the values of an option in order, and the rest.
pub record Matches : Type 0 where
  pub https_flag : Bool
  pub tls_flag : Bool
  pub tcp_flag : Bool
  pub udp_flag : Bool
  pub queries : List (List ℕ)
  pub types : List String
  pub nameservers : List (List ℕ)
  pub classes : List (List ℕ)
  pub free : List String

-- The errors of the inputs. A nameserver that cannot be used comes with the reason.
pub data OptionsError : Type 0 where
  query_type_opt missing_https_url : OptionsError
  invalid_query_type invalid_query_class : List ℕ → OptionsError
  invalid_domain : List ℕ → InvalidName → OptionsError
  unusable_nameserver : Error → OptionsError

pub data Deduction {ℓ} (A : Type ℓ) : Type ℓ where
  deduced : A → Deduction A
  refused : OptionsError → Deduction A

-- `?`
module _ {ℓ κ} {A : Type ℓ} {B : Type κ} where
  infixl 5 ◌>>=◌
  abbrev pub ◌>>=◌ : Deduction A → (A → Deduction B) → Deduction B
  deduced x >>= f = f x
  refused e >>= f = refused e

-- `Option::or_else`
abbrev pub otherwise {ℓ} : {A : Type ℓ} → Option A → Option A → Option A
otherwise (some x) other = some x
otherwise none other = other

abbrev pub map_some {ℓ κ} : {A : Type ℓ} {B : Type κ} → (A → B) → Option A → Option B
map_some f none = none
map_some f (some x) = some (f x)

abbrev pub nonempty {ℓ} : {A : Type ℓ} → List A → Bool
nonempty [] = false
nonempty (x ∷ xs) = true

unfoldable pub number : List ℕ → Option ℕ
number input =
    if nonempty input && all_bytes (λ b. leb b'0' b && leb b b'9') input
    then parse_unsigned 65535 input
    else none

unfoldable pub generic_number : List ℕ → List ℕ → Option ℕ
generic_number input word =
    if leb (length word) (length input) && eq_ignore_ascii_case (take (length word) input) word
    then number (drop (length word) input)
    else none

unfoldable pub parse_class_name : List ℕ → Option QClass
parse_class_name input =
    if eq_ignore_ascii_case input (codes "IN")
    then some internet
    else if eq_ignore_ascii_case input (codes "CH")
    then some chaosnet
    else if eq_ignore_ascii_case input (codes "HS")
    then some hesiod
    else none

unfoldable pub parse_class : List ℕ → Option QClass
parse_class input =
    otherwise (parse_class_name input)
      (map_some qclass_from_u16 (generic_number input (codes "CLASS")))

unfoldable pub parse_type : String → Option RecordType
parse_type input =
    otherwise (from_type_name input)
      (map_some type_from_u16 (generic_number (codes input) (codes "TYPE")))

unfoldable pub is_constant_name : List ℕ → Bool
is_constant_name [] = false
is_constant_name (c ∷ cs) =
    ((leb b'A' c && leb c b'Z') || (leb b'a' c && leb c b'z'))
    && all_bytes is_ascii_alphanumeric (c ∷ cs)

abbrev pub no_inputs : Inputs
no_inputs = record {
  domains = [];
  record_types = [];
  classes = [];
  resolver_types = [];
  transport_types = [];
}

abbrev pub add_type : Inputs → RecordType → Inputs
add_type inputs rt = record inputs { record_types = inputs.record_types ++ rt ∷ [] }

abbrev pub add_class : Inputs → QClass → Inputs
add_class inputs class = record inputs { classes = inputs.classes ++ class ∷ [] }

abbrev pub add_nameserver : Inputs → List ℕ → Inputs
add_nameserver inputs input = record inputs {
  resolver_types = inputs.resolver_types ++ specific input ∷ [];
}

abbrev pub add_transport : Inputs → Bool → TransportType → Inputs
add_transport inputs false transport = inputs
add_transport inputs true transport = record inputs {
  transport_types = inputs.transport_types ++ transport ∷ [];
}

-- With the features `with_tls` and `with_https`.
unfoldable pub load_transport_types : Inputs → Matches → Inputs
load_transport_types inputs matches =
    let i₁ = add_transport inputs matches.https_flag https in
    let i₂ = add_transport i₁ matches.tls_flag tls in
    let i₃ = add_transport i₂ matches.tcp_flag tcp in add_transport i₃ matches.udp_flag udp

-- The `if let` on a type or a class.
abbrev pub type_or : Inputs → List ℕ → Option RecordType → Deduction Inputs
type_or inputs name (some rt) = deduced (add_type inputs rt)
type_or inputs name none = refused (invalid_query_type name)

abbrev pub class_or : Inputs → List ℕ → Option QClass → Deduction Inputs
class_or inputs name (some class) = deduced (add_class inputs class)
class_or inputs name none = refused (invalid_query_class name)

unfoldable pub add_named_type : Inputs → String → Deduction Inputs
add_named_type inputs record_name =
    if eq_ignore_ascii_case (codes record_name) (codes "OPT")
    then refused query_type_opt
    else type_or inputs (codes record_name)
        (otherwise (parse_type record_name) (map_some type_from_u16 (number (codes record_name))))

unfoldable pub add_named_class : Inputs → List ℕ → Deduction Inputs
add_named_class inputs class_name =
    class_or inputs class_name
      (otherwise (parse_class class_name) (map_some qclass_from_u16 (number class_name)))

-- A `for` loop whose body may end it.
unfoldable pub each {ℓ} :
    {A : Type ℓ} → (Inputs → A → Deduction Inputs) → Inputs → List A → Deduction Inputs
each body inputs [] = deduced inputs
each body inputs (x ∷ xs) = body inputs x >>= λ next. each body next xs

unfoldable pub load_fallbacks : Inputs → Inputs
load_fallbacks inputs = record {
  domains = inputs.domains;
  record_types = if nonempty inputs.record_types then inputs.record_types else RecordType.a ∷ [];
  classes = if nonempty inputs.classes then inputs.classes else internet ∷ [];
  resolver_types =
      if nonempty inputs.resolver_types then inputs.resolver_types else system_default ∷ [];
  transport_types =
      if nonempty inputs.transport_types then inputs.transport_types else automatic ∷ [];
}

-- Whether a parser of addresses accepts a text.
abbrev pub usable {ℓ} : {A : Type ℓ} → Result A → Inputs → Deduction Inputs
usable (err e) inputs = refused (unusable_nameserver e)
usable r inputs = deduced inputs

abbrev pub only_https : List TransportType → Bool
only_https (https ∷ []) = true
only_https transports = false

abbrev pub transports_of : Inputs → List TransportType
transports_of inputs =
    if nonempty inputs.transport_types then inputs.transport_types else automatic ∷ []

module _ ⦃P : IpParser⦄ where
  -- `TransportType::check_nameserver` of connect.rs.
  unfoldable pub check_nameserver : List ℕ → Inputs → TransportType → Deduction Inputs
  check_nameserver nameserver inputs automatic = usable (parse_host_port nameserver 53) inputs
  check_nameserver nameserver inputs udp = usable (parse_host_port nameserver 53) inputs
  check_nameserver nameserver inputs tcp = usable (parse_host_port nameserver 53) inputs
  check_nameserver nameserver inputs tls = usable (parse_host_port nameserver 853) inputs
  check_nameserver nameserver inputs https = usable (parse_https_url nameserver) inputs

  -- One nameserver, with every transport asked for.
  abbrev pub check_resolver : List TransportType → Inputs → ResolverType → Deduction Inputs
  check_resolver transports inputs system_default = deduced inputs
  check_resolver transports inputs (specific nameserver) =
      each (check_nameserver nameserver) inputs transports

  unfoldable pub check_for_missing_nameserver : Inputs → Deduction Inputs
  check_for_missing_nameserver inputs =
      if (if nonempty inputs.resolver_types then false else only_https inputs.transport_types)
      then refused missing_https_url
      else each (check_resolver (transports_of inputs)) inputs inputs.resolver_types

  module _ ⦃C : Characters⦄ where
    abbrev pub domain_or : Inputs → List ℕ → Encoded Labels → Deduction Inputs
    domain_or inputs input (encoded domain) =
        deduced (record inputs { domains = inputs.domains ++ domain ∷ [] })
    domain_or inputs input (invalid reason) = refused (invalid_domain input reason)

    unfoldable pub add_domain : Inputs → List ℕ → Deduction Inputs
    add_domain inputs input = domain_or inputs input (encode input)

    -- The second and the third guess.
    abbrev pub type_or_domain : Inputs → String → Option RecordType → Deduction Inputs
    type_or_domain inputs argument (some rt) = deduced (add_type inputs rt)
    type_or_domain inputs argument none = add_domain inputs (codes argument)

    abbrev pub class_or_other : Inputs → String → Option QClass → Deduction Inputs
    class_or_other inputs argument (some class) = deduced (add_class inputs class)
    class_or_other inputs argument none = type_or_domain inputs argument (parse_type argument)

    unfoldable pub add_constant : Inputs → String → Deduction Inputs
    add_constant inputs argument =
        if eq_ignore_ascii_case (codes argument) (codes "OPT")
        then refused query_type_opt
        else class_or_other inputs argument (parse_class (codes argument))

    -- The `if let` on an argument that starts with `@`.
    abbrev pub free_arg : Inputs → String → Option (List ℕ) → Deduction Inputs
    free_arg inputs argument (some nameserver) = deduced (add_nameserver inputs nameserver)
    free_arg inputs argument none =
        if is_constant_name (codes argument)
        then add_constant inputs argument
        else add_domain inputs (codes argument)

    unfoldable pub load_free_arg : Inputs → String → Deduction Inputs
    load_free_arg inputs argument =
        free_arg inputs argument (strip_prefix (b'@' ∷ []) (codes argument))

    unfoldable pub load_named_args : Inputs → Matches → Deduction Inputs
    load_named_args inputs matches = do
      i₁ ← each add_domain inputs matches.queries
      i₂ ← each add_named_type i₁ matches.types
      i₃ ← each (λ i ns. deduced (add_nameserver i ns)) i₂ matches.nameservers
      each add_named_class i₃ matches.classes

    -- `Inputs::deduce`
    unfoldable pub deduce_inputs : Matches → Deduction Inputs
    deduce_inputs matches = do
      i₁ ← load_named_args (load_transport_types no_inputs matches) matches
      i₂ ← each load_free_arg i₁ matches.free
      i₃ ← check_for_missing_nameserver i₂
      deduced (load_fallbacks i₃)
