-- ===== src/Client/Examples/Inputs.antt =====
-- A `resolv.conf`, and requests: the theorems at concrete inputs.
use dog.Prelude.{ℕ, refl, some, Bool, true, false, ◌&&◌, leb, List, [], ◌∷◌, arith, codes}
use dog.Dns.Examples.Encode.{ascii_only}
use dog.Dns.Records.Types.{RecordType}
use dog.Dns.Message.{internet}
use dog.Transport.Address.{IpParser, strip_prefix}
use dog.Client.Resolve.{
  Resolver, Line, line, Trim, split_words, parse_lines, parse_resolv_conf, system_default,
}
use dog.Client.Resolve.Usable.{IsUsable, parse_resolv_conf-IsUsable}
use dog.Client.Generate.{Draws, RequestGenerator, random, send_and_hide, udp, automatic}

-- A text is an address if it begins with a digit.
abbrev pub is_address : List ℕ → Bool
is_address [] = false
is_address (c ∷ text) = leb b'0' c && leb c b'9'

instance abbrev pub addresses : IpParser
addresses = record { is_ipv6 = λ text. false; is_ipv6-nil = refl; is_ip = is_address }

instance abbrev untrimmed : Trim
untrimmed = record { trim = λ text. text }

abbrev lines : List Line
lines =
    line (codes "# made by hand")
    ∷ line (codes "nameserver x")
    ∷ line (codes "nameserver 1.1.1.1")
    ∷ line (codes "search a b")
    ∷ []

abbrev local_resolver : Resolver
local_resolver = record {
  nameservers = codes "1.1.1.1" ∷ [];
  search_list = codes "a" ∷ codes "b" ∷ [];
}

parse_resolv_conf-IsUsable_example : IsUsable local_resolver
unfolding parse_resolv_conf parse_lines strip_prefix split_words
parse_resolv_conf-IsUsable_example = parse_resolv_conf-IsUsable lines local_resolver refl

instance abbrev seven : Draws
seven = record { draw = λ count. 7; draw-u16 = λ count. omega arith }

abbrev generator : RequestGenerator
generator = record {
  inputs = record {
    domains = record { segments = (b'a' ∷ []) ∷ [] } ∷ [];
    record_types = RecordType.aaaa ∷ RecordType.mx ∷ [];
    classes = internet ∷ [];
    resolver_types = system_default ∷ [];
    transport_types = udp ∷ automatic ∷ [];
  };
  txid_generator = random;
  edns = send_and_hide;
  protocol_tweaks = record {
    set_authoritative_flag = false;
    set_authentic_flag = true;
    set_checking_disabled_flag = false;
    set_dnssec_ok_flag = true;
    udp_payload_size = some 4096;
  };
}
