-- ===== src/Client/Options/Deduced.antt =====
-- The inputs that are deduced from the arguments are complete, and what they hold is well-formed.
use dog.Prelude.{
  ℕ, String, ◌≤◌, ◌≡◌, refl, Option, none, some, false, List, [], ◌∷◌, arith, codes,
  eq_ignore_ascii_case, if◌then◌else◌, length, All, All-append,
}
use mathlib.Core.Path.{subst}
use dog.Dns.Strings.Defs.{Labels}
use dog.Dns.Strings.Encode.{Characters, Encoded, encoded, invalid, encode}
use dog.Dns.Strings.Encode.Valid.{IsValid, encode-limits}
use dog.Dns.Records.Types.{RecordType}
use dog.Dns.Message.{QClass, internet}
use dog.Dns.Message.Parts.{IsClass}
use dog.Transport.Address.{IpParser, strip_prefix, parse_host_port, parse_https_url}
use dog.Transport.Errors.{Result, ok, err, panic, out_of_fuel}
use dog.Client.Resolve.{ResolverType, system_default, specific}
use dog.Client.Generate.{TransportType, automatic, udp, tcp, tls, https, Inputs}
use dog.Client.Options.{
  Matches, deduced, nonempty, usable, only_https, transports_of, parse_class, parse_type,
  is_constant_name, no_inputs, add_nameserver, add_transport, load_transport_types, add_named_type,
  add_named_class, each, load_fallbacks, check_nameserver, check_resolver,
  check_for_missing_nameserver, domain_or, add_domain, type_or_domain, class_or_other, add_constant,
  free_arg, load_free_arg, load_named_args, deduce_inputs,
}
use dog.Client.Options.Parts.{
  Holds, Perhaps, Holds-bind, each-Holds, IsGood, add_named_class-IsGood, Holds-if,
  add_named_type-IsGood, add_transport-IsGood, parse_class-IsClass,
}

-- Something to ask, and somewhere to send it.
pub record IsComplete (inputs : Inputs) : Type 0 where
  pub domains : All IsValid inputs.domains
  pub classes : All IsClass inputs.classes
  pub some_type : 1 ≤ length inputs.record_types
  pub some_class : 1 ≤ length inputs.classes
  pub some_resolver : 1 ≤ length inputs.resolver_types
  pub some_transport : 1 ≤ length inputs.transport_types

load_transport_types-IsGood :
    (matches : Matches) (inputs : Inputs)
    → IsGood inputs
    → IsGood (load_transport_types inputs matches)
unfolding load_transport_types
load_transport_types-IsGood matches inputs h =
    let i₁ = add_transport inputs matches.https_flag https in
    let i₂ = add_transport i₁ matches.tls_flag tls in
    let i₃ = add_transport i₂ matches.tcp_flag tcp in
    add_transport-IsGood i₃ matches.udp_flag udp (
      add_transport-IsGood i₂ matches.tcp_flag tcp (
        add_transport-IsGood i₁ matches.tls_flag tls
          (add_transport-IsGood inputs matches.https_flag https h)))

-- A list that is empty gets its fallback.
filled {ℓ} : {A : Type ℓ} (xs : List A) (x : A) → 1 ≤ length (if nonempty xs then xs else x ∷ [])
filled [] x = omega arith
filled (y ∷ xs) x = omega arith

filled-All :
    (classes : List QClass)
    → All IsClass classes
    → All IsClass (if nonempty classes then classes else internet ∷ [])
filled-All [] h = (tt, tt)
filled-All (class ∷ classes) h = h

load_fallbacks-IsComplete : (inputs : Inputs) → IsGood inputs → IsComplete (load_fallbacks inputs)
unfolding load_fallbacks
load_fallbacks-IsComplete inputs h = record {
  domains = h.0;
  classes = filled-All inputs.classes h.1;
  some_type = filled inputs.record_types RecordType.a;
  some_class = filled inputs.classes internet;
  some_resolver = filled inputs.resolver_types system_default;
  some_transport = filled inputs.transport_types automatic;
}

usable-IsGood {ℓ} :
    {A : Type ℓ} (r : Result A) (inputs : Inputs) → IsGood inputs → Holds IsGood (usable r inputs)
usable-IsGood (ok x) inputs h = h
usable-IsGood (err e) inputs h = tt
usable-IsGood panic inputs h = h
usable-IsGood out_of_fuel inputs h = h

module _ ⦃P : IpParser⦄ where
  check_nameserver-IsGood :
      (nameserver : List ℕ) (inputs : Inputs) (transport : TransportType)
      → IsGood inputs
      → Holds IsGood (check_nameserver nameserver inputs transport)
  unfolding check_nameserver
  check_nameserver-IsGood nameserver inputs automatic h =
      usable-IsGood (parse_host_port nameserver 53) inputs h
  check_nameserver-IsGood nameserver inputs udp h =
      usable-IsGood (parse_host_port nameserver 53) inputs h
  check_nameserver-IsGood nameserver inputs tcp h =
      usable-IsGood (parse_host_port nameserver 53) inputs h
  check_nameserver-IsGood nameserver inputs tls h =
      usable-IsGood (parse_host_port nameserver 853) inputs h
  check_nameserver-IsGood nameserver inputs https h =
      usable-IsGood (parse_https_url nameserver) inputs h

  check_resolver-IsGood :
      (transports : List TransportType) (inputs : Inputs) (type : ResolverType)
      → IsGood inputs
      → Holds IsGood (check_resolver transports inputs type)
  check_resolver-IsGood transports inputs system_default h = h
  check_resolver-IsGood transports inputs (specific nameserver) h =
      each-Holds IsGood (check_nameserver nameserver) inputs transports h
        (λ i x good. check_nameserver-IsGood nameserver i x good)

  check_for_missing_nameserver-IsGood :
      (inputs : Inputs) → IsGood inputs → Holds IsGood (check_for_missing_nameserver inputs)
  unfolding check_for_missing_nameserver
  check_for_missing_nameserver-IsGood inputs h =
      Holds-if IsGood
        (if nonempty inputs.resolver_types then false else only_https inputs.transport_types) _ _ tt
        (each-Holds IsGood (check_resolver (transports_of inputs)) inputs inputs.resolver_types h
          (λ i x good. check_resolver-IsGood (transports_of inputs) i x good))

  module _ ⦃C : Characters⦄ where
    domain_or-IsGood :
        (inputs : Inputs) (input : List ℕ) (domain : Encoded Labels)
        → IsGood inputs
        → ((labels : Labels) → domain ≡ encoded labels → IsValid labels)
        → Holds IsGood (domain_or inputs input domain)
    domain_or-IsGood inputs input (invalid reason) h k = tt
    domain_or-IsGood inputs input (encoded domain) h k =
        (All-append IsValid inputs.domains (domain ∷ []) h.0 (k domain refl, tt), h.1)

    add_domain-IsGood :
        (inputs : Inputs) (input : List ℕ) → IsGood inputs → Holds IsGood (add_domain inputs input)
    unfolding add_domain
    add_domain-IsGood inputs input h =
        domain_or-IsGood inputs input (encode input) h (encode-limits input)

    type_or_domain-IsGood :
        (inputs : Inputs) (argument : String) (type : Option RecordType)
        → IsGood inputs
        → Holds IsGood (type_or_domain inputs argument type)
    type_or_domain-IsGood inputs argument none h = add_domain-IsGood inputs (codes argument) h
    type_or_domain-IsGood inputs argument (some type) h = h

    class_or_other-IsGood :
        (inputs : Inputs) (argument : String) (class : Option QClass)
        → IsGood inputs
        → Perhaps IsClass class
        → Holds IsGood (class_or_other inputs argument class)
    class_or_other-IsGood inputs argument none h k =
        type_or_domain-IsGood inputs argument (parse_type argument) h
    class_or_other-IsGood inputs argument (some class) h k =
        (h.0, All-append IsClass inputs.classes (class ∷ []) h.1 (k, tt))

    free_arg-IsGood :
        (inputs : Inputs) (argument : String) (nameserver : Option (List ℕ))
        → IsGood inputs
        → Holds IsGood (free_arg inputs argument nameserver)
    unfolding add_constant
    free_arg-IsGood inputs argument (some nameserver) h = h
    free_arg-IsGood inputs argument none h =
        Holds-if IsGood (is_constant_name (codes argument)) _ _
          (Holds-if IsGood (eq_ignore_ascii_case (codes argument) (codes "OPT")) _ _ tt (
            class_or_other-IsGood inputs argument (parse_class (codes argument)) h
              (parse_class-IsClass (codes argument))))
          (add_domain-IsGood inputs (codes argument) h)

    load_named_args-IsGood :
        (inputs : Inputs) (matches : Matches)
        → IsGood inputs
        → Holds IsGood (load_named_args inputs matches)
    unfolding load_named_args
    load_named_args-IsGood inputs matches h =
        Holds-bind IsGood IsGood (each add_domain inputs matches.queries) _
          (each-Holds IsGood add_domain inputs matches.queries h
            (λ i x good. add_domain-IsGood i x good))
          λ i₁ h₁.
            Holds-bind IsGood IsGood (each add_named_type i₁ matches.types) _
              (each-Holds IsGood add_named_type i₁ matches.types h₁
                (λ i x good. add_named_type-IsGood i x good))
              λ i₂ h₂.
                Holds-bind IsGood IsGood
                  (each (λ i ns. deduced (add_nameserver i ns)) i₂ matches.nameservers) _
                  (each-Holds IsGood (λ i ns. deduced (add_nameserver i ns)) i₂ matches.nameservers
                    h₂ (λ i x good. good))
                  λ i₃ h₃.
                    each-Holds IsGood add_named_class i₃ matches.classes h₃
                      (λ i x good. add_named_class-IsGood i x good)

    deduce_inputs-Holds : (matches : Matches) → Holds IsComplete (deduce_inputs matches)
    unfolding deduce_inputs load_free_arg
    deduce_inputs-Holds matches =
        let start = load_transport_types no_inputs matches in
        Holds-bind IsGood IsComplete (load_named_args start matches) _
          (load_named_args-IsGood start matches
            (load_transport_types-IsGood matches no_inputs (tt, tt)))
          λ i₁ h₁.
            Holds-bind IsGood IsComplete (each load_free_arg i₁ matches.free) _
              (each-Holds IsGood load_free_arg i₁ matches.free h₁
                (λ i x good. free_arg-IsGood i x (strip_prefix (b'@' ∷ []) (codes x)) good))
              λ i₂ h₂.
                Holds-bind IsGood IsComplete (check_for_missing_nameserver i₂) _
                  (check_for_missing_nameserver-IsGood i₂ h₂)
                  λ i₃ h₃. load_fallbacks-IsComplete i₃ h₃

    -- If `Inputs::deduce` accepts the arguments, there is a type, a class, a resolver and a
    -- transport to ask with, every domain has ASCII labels of at most 63 bytes and takes at
    -- most 255 bytes, and every class is the one of its number, however it was given; UTS 46
    -- processing returns ASCII.
    pub deduce_inputs-IsComplete :
        (matches : Matches) (inputs : Inputs)
        → deduce_inputs matches ≡ deduced inputs
        → IsComplete inputs
    deduce_inputs-IsComplete matches inputs e =
        subst (Holds IsComplete) e (deduce_inputs-Holds matches)
