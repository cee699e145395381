-- ===== src/Transport/Examples/Http.antt =====
-- HTTP requests, their URLs and the bodies of responses: the theorems at concrete inputs.
use dog.Prelude.{
  ℕ, ◌≡◌, refl, none, some, false, List, [], ◌∷◌, ◌++◌, arith, codes, eq_ignore_ascii_case,
}
use dog.Transport.Errors.{ok}
use dog.Transport.Ends.{Ends}
use dog.Transport.Stream.{Stream, Arrival, arrived}
use dog.Transport.Stream.Contents.{contents}
use dog.Transport.Address.{
  IpParser, HttpsUrl, strip_prefix, parse_digits, parse_unsigned, parse_https_url,
}
use dog.Transport.Address.Safe.{IsSafe, parse_https_url-IsSafe}
use dog.Transport.Https.{
  HttpParser, complete, blank_line, header, content_length, parse_head, read_http_body,
  build_http_request,
}
use dog.Transport.Https.Lines.{line_feeds, build_http_request-line_feeds}
use dog.Transport.Https.Body.{read_http_body_lem}

-- No text is an address.
instance abbrev names_only : IpParser
names_only = record { is_ipv6 = λ text. false; is_ipv6-nil = refl; is_ip = λ text. false }

parse_https_url-IsSafe_example :
    Ends IsSafe (parse_https_url (codes "https://dns.example:8443/dns-query#top"))
parse_https_url-IsSafe_example =
    parse_https_url-IsSafe (codes "https://dns.example:8443/dns-query#top")

abbrev resolver : HttpsUrl
resolver = record { host = codes "::1"; port = 8443; path = codes "/dns-query" }

build_http_request-line_feeds_example :
    (head : List ℕ) × (build_http_request resolver (10 ∷ []) ≡ head ++ 10 ∷ [])
    × (line_feeds head ≡ 7)
build_http_request-line_feeds_example =
    build_http_request-line_feeds resolver (10 ∷ []) (omega arith) (omega arith)

-- Every head declares a body of two bytes.
instance abbrev two_bytes : HttpParser
two_bytes = record {
  parse = λ head. complete (some 200) none ((codes "content-length", codes "2") ∷ []);
  trimmed_text = some;
}

abbrev head : List ℕ
head = 72 ∷ 13 ∷ 10 ∷ 13 ∷ 10 ∷ []

abbrev response : Stream
response = record {
  input = arrived (72 ∷ 13 ∷ 10 ∷ []) ∷ arrived (13 ∷ 10 ∷ 1 ∷ []) ∷ arrived (2 ∷ 3 ∷ []) ∷ [];
  output = [];
  refused = none;
}

read_http_body_lem_example :
    (rest : List Arrival) × (read_http_body response 5
      ≡ ok (1 ∷ 2 ∷ [], record response { input = rest }))
unfolding contents blank_line strip_prefix parse_head content_length header eq_ignore_ascii_case
    parse_unsigned parse_digits
read_http_body_lem_example =
    read_http_body_lem response 5 1 head (1 ∷ 2 ∷ []) (3 ∷ []) refl refl refl (omega arith) refl
