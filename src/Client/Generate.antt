-- ===== src/Client/Generate.antt =====
-- requests.rs, txid.rs and `make_transport_to` of connect.rs in src: the requests that the inputs ask for.
pub mod Fields
pub mod Requests
use dog.Prelude.{
  ℕ, zero, suc, ◌+◌, Option, none, some, Bool, true, false, List, [], ◌∷◌, ◌++◌, ◌<◌, bit_or,
  if◌then◌else◌, map,
}
use dog.Dns.Strings.Defs.{Labels}
use dog.Dns.Strings.Encode.{Characters}
use dog.Dns.Records.Types.{RecordType}
use dog.Dns.Records.Opt.{Opt}
use dog.Dns.Flags.{Flags, flags_query}
use dog.Dns.Message.{QClass, Query, Request, additional_record}
use dog.Client.Resolve.{
  Resolver, ResolverType, ResolverLookupError, Lookup, found, failed, obtain, name_list,
}

pub data TxidGenerator : Type 0 where
  random : TxidGenerator
  sequence : ℕ → TxidGenerator

-- The numbers that the package rand draws, for each request in turn.
pub record Draws : Type 0 where
  pub draw : ℕ → ℕ
  pub draw-u16 : (request : ℕ) → draw request < 65536

pub data TransportType : Type 0 where
  automatic udp tcp tls https : TransportType

-- A transport by the type and the nameserver that it is made with.
pub data Target : Type 0 where
  one : TransportType → List ℕ → Target
  in_turn : List (TransportType × List ℕ) → Target

-- `make_transport_to`
unfoldable pub make_transport_to : TransportType → List (List ℕ) → Target
make_transport_to type (nameserver ∷ []) = one type nameserver
make_transport_to type nameservers = in_turn (map (λ nameserver. (type, nameserver)) nameservers)

pub record ProtocolTweaks : Type 0 where
  pub set_authoritative_flag : Bool
  pub set_authentic_flag : Bool
  pub set_checking_disabled_flag : Bool
  pub set_dnssec_ok_flag : Bool
  pub udp_payload_size : Option ℕ

pub data UseEdns : Type 0 where
  disable send_and_hide send_and_show : UseEdns

-- `UseEDNS::should_send`
unfoldable pub should_send : UseEdns → Bool
should_send disable = false
should_send send_and_hide = true
should_send send_and_show = true

unfoldable pub set_request_flags : ProtocolTweaks → Flags → Flags
set_request_flags tweaks flags =
    let f₁ =
      if tweaks.set_authoritative_flag then record flags { authoritative = true } else flags in
    let f₂ = if tweaks.set_authentic_flag then record f₁ { authentic_data = true } else f₁ in
    if tweaks.set_checking_disabled_flag then record f₂ { checking_disabled = true } else f₂

-- The `if let` on the buffer size.
abbrev pub with_payload_size : Option ℕ → Opt → Opt
with_payload_size none opt = opt
with_payload_size (some bufsize) opt = record opt { udp_payload_size = bufsize }

unfoldable pub set_request_opt_fields : ProtocolTweaks → Opt → Opt
set_request_opt_fields tweaks opt =
    with_payload_size tweaks.udp_payload_size
      (if tweaks.set_dnssec_ok_flag then record opt { flags = bit_or opt.flags 0x8000 } else opt)

pub record Inputs : Type 0 where
  pub domains : List Labels
  pub record_types : List RecordType
  pub classes : List QClass
  pub resolver_types : List ResolverType
  pub transport_types : List TransportType

pub record RequestGenerator : Type 0 where
  pub inputs : Inputs
  pub txid_generator : TxidGenerator
  pub edns : UseEdns
  pub protocol_tweaks : ProtocolTweaks

abbrev pub RequestSet : Type 0
RequestSet = Target × List Request

-- A `for` loop that pushes, with the number of requests so far.
unfoldable pub for_each {ℓ κ} :
    {A : Type ℓ} {B : Type κ} → List A → (A → ℕ → List B × ℕ) → ℕ → List B × ℕ
for_each [] body count = ([], count)
for_each (x ∷ xs) body count =
    let (pushed, count') = body x count in
    let (more, count'') = for_each xs body count' in (pushed ++ more, count'')

-- `map(...).collect()`: the first error ends it.
abbrev pub and_found {ℓ κ} : {A : Type ℓ} {B : Type κ} → Lookup A → (A → Lookup B) → Lookup B
and_found (found x) f = f x
and_found (failed e) f = failed e

unfoldable pub obtain_all : Lookup Resolver → List ResolverType → Lookup (List Resolver)
obtain_all system [] = found []
obtain_all system (type ∷ types) =
    let rest = obtain_all system types in
    and_found (obtain system type) λ resolver. and_found rest λ more. found (resolver ∷ more)

module _ ⦃D : Draws⦄ where
  -- `TxidGenerator::generate`
  unfoldable pub generate_txid : TxidGenerator → ℕ → ℕ
  generate_txid random count = D.draw count
  generate_txid (sequence start) count = start

  -- The body of the loop over the names.
  unfoldable pub make_request :
      RequestGenerator → RecordType → QClass → Labels → ℕ → List Request × ℕ
  make_request generator qtype qclass qname count = (
    record {
      transaction_id = generate_txid generator.txid_generator count;
      flags = set_request_flags generator.protocol_tweaks flags_query;
      query = record { qname = qname; qclass = qclass; qtype = qtype };
      additional =
          if should_send generator.edns
          then some (set_request_opt_fields generator.protocol_tweaks additional_record)
          else none;
    }
        ∷ [],
    count + 1,
  )

  module _ ⦃C : Characters⦄ where
    -- The body of the innermost loop of `generate`.
    unfoldable pub make_set :
        RequestGenerator
        → Labels
        → RecordType
        → QClass
        → Resolver
        → TransportType
        → ℕ
        → List RequestSet × ℕ
    make_set generator domain qtype qclass resolver transport_type count =
        let (request_list, count') =
          for_each (name_list resolver domain) (make_request generator qtype qclass) count in
        ((make_transport_to transport_type resolver.nameservers, request_list) ∷ [], count')

    unfoldable pub generate_sets : RequestGenerator → List Resolver → List RequestSet
    generate_sets generator resolvers =
        (for_each generator.inputs.domains
          (λ domain. for_each generator.inputs.record_types (λ qtype.
            for_each generator.inputs.classes (λ qclass. for_each resolvers (λ resolver.
              for_each generator.inputs.transport_types
                (make_set generator domain qtype qclass resolver)))))
          0).0

    unfoldable pub generate : Lookup Resolver → RequestGenerator → Lookup (List RequestSet)
    generate system generator =
        and_found (obtain_all system generator.inputs.resolver_types)
          λ resolvers. found (generate_sets generator resolvers)
