-- ===== src/Client/Examples/Arguments.antt =====
-- Arguments: the theorem at concrete inputs.
use dog.Prelude.{refl, true, false, [], ◌∷◌, codes, eq_ignore_ascii_case}
use dog.Dns.Strings.Defs.{wire_length, segments_length}
use dog.Dns.Strings.Encode.{
  encode, encode_text, encode_labels, encode_label, any_char, split_dots, without_dot,
}
use dog.Dns.Records.Types.{RecordType}
use dog.Dns.Message.{internet, qclass_from_u16}
use dog.Dns.Examples.Encode.{ascii_only, keep_ascii, all_ascii}
use dog.Transport.Address.{
  strip_prefix, contains, all_bytes, rsplit_once, parse_digits, parse_unsigned, is_host,
  parse_host_port,
}
use dog.Client.Examples.Inputs.{addresses}
use dog.Client.Resolve.{specific}
use dog.Client.Generate.{tcp, Inputs}
use dog.Client.Options.{
  Matches, number, generic_number, parse_class_name, parse_class, is_constant_name,
  load_transport_types, add_named_class, each, load_fallbacks, check_nameserver,
  check_for_missing_nameserver, add_domain, load_free_arg, load_named_args, deduce_inputs,
}
use dog.Client.Options.Deduced.{IsComplete, deduce_inputs-IsComplete}

-- `dog --tcp --class 1 x.y @1.1.1.1`
abbrev arguments : Matches
arguments = record {
  https_flag = false;
  tls_flag = false;
  tcp_flag = true;
  udp_flag = false;
  queries = [];
  types = [];
  nameservers = [];
  classes = codes "1" ∷ [];
  free = "x.y" ∷ "@1.1.1.1" ∷ [];
}

abbrev inputs : Inputs
inputs = record {
  domains = record { segments = (b'x' ∷ []) ∷ (b'y' ∷ []) ∷ [] } ∷ [];
  record_types = RecordType.a ∷ [];
  classes = internet ∷ [];
  resolver_types = specific (codes "1.1.1.1") ∷ [];
  transport_types = tcp ∷ [];
}

deduce_inputs-IsComplete_example : IsComplete inputs
unfolding deduce_inputs load_named_args each load_free_arg add_domain encode encode_text
    encode_labels encode_label any_char split_dots without_dot keep_ascii all_ascii wire_length
    segments_length parse_host_port is_host contains strip_prefix rsplit_once all_bytes
    is_constant_name load_fallbacks load_transport_types check_nameserver
    check_for_missing_nameserver add_named_class parse_class parse_class_name generic_number number
    parse_unsigned parse_digits eq_ignore_ascii_case qclass_from_u16
deduce_inputs-IsComplete_example = deduce_inputs-IsComplete arguments inputs refl
