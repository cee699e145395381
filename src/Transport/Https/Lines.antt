-- ===== src/Transport/Https/Lines.antt =====
-- The text of an HTTP request has the lines that it is meant to have, if the host and the path
-- of its URL hold printable ASCII only.
use dog.Prelude.{
  ℕ, zero, suc, ◌+◌, ◌/◌, ◌%◌, ◌≡◌, refl, ◌∙◌, inl, inr, Bool, true, false, Bool-cases, List, [],
  ◌∷◌, ◌++◌, arith, codes, decimal, decimal_fuel, leb, ◌==◌, if◌then◌else◌, length, All,
  append_assoc,
}
use dog.Transport.Address.{HttpsUrl, contains}
use dog.Transport.Address.Parts.{IsGraphic}
use dog.Transport.Https.{user_agent, host_header, line_break, build_http_request}

-- The number of bytes that end a line.
unfoldable pub line_feeds : List ℕ → ℕ
line_feeds [] = 0
line_feeds (b ∷ bytes) = (if b == 10 then 1 else 0) + line_feeds bytes

line_feeds-append : (xs ys : List ℕ) → line_feeds (xs ++ ys) ≡ line_feeds xs + line_feeds ys
unfolding line_feeds
line_feeds-append [] ys = omega arith
line_feeds-append (x ∷ xs) ys = rw (line_feeds-append xs ys) (omega arith)

line_feeds-graphic : (text : List ℕ) → All IsGraphic text → line_feeds text ≡ 0
unfolding line_feeds
line_feeds-graphic [] h = refl
line_feeds-graphic (c ∷ text) h = let rest = line_feeds-graphic text h.1 in ground arith

line_feeds-decimal_fuel : (fuel n : ℕ) → line_feeds (decimal_fuel fuel n) ≡ 0
unfolding line_feeds decimal_fuel
line_feeds-decimal_fuel zero n = refl
line_feeds-decimal_fuel (suc fuel) n = elim (Bool-cases (leb 10 n)) [
  | inl more ↦
      rw
        (
          more,
          decimal_fuel,
          line_feeds-append (decimal_fuel fuel (n / 10)) ((b'0' + n % 10) ∷ []),
          line_feeds-decimal_fuel fuel (n / 10),
        )
        (ground arith)
  | inr last ↦ rw (last, decimal_fuel) (ground arith)
]

in_brackets :
    (host : List ℕ) → line_feeds host ≡ 0 → line_feeds ((b'[' ∷ []) ++ (host ++ (b']' ∷ []))) ≡ 0
unfolding line_feeds
in_brackets host h = rw (line_feeds-append host (b']' ∷ []), h, line_feeds) refl

with_port :
    (host : List ℕ) (port : ℕ) → line_feeds host ≡ 0 → line_feeds (host ++ b':' ∷ decimal port) ≡ 0
unfolding line_feeds
with_port host port h =
    line_feeds-append host (b':' ∷ decimal port)
    ∙ omega (arith, h, line_feeds-decimal_fuel (suc port) port)

if_lem :
    (b : Bool) (x y : List ℕ)
    → line_feeds x ≡ 0
    → line_feeds y ≡ 0
    → line_feeds (if b then x else y) ≡ 0
if_lem true x y h k = h
if_lem false x y h k = k

host_header-line_feeds :
    (url : HttpsUrl) → All IsGraphic url.host → line_feeds (host_header url) ≡ 0
unfolding host_header
host_header-line_feeds url graphic =
    let clean = line_feeds-graphic url.host graphic in
    let host =
      if contains (b':' ∷ []) url.host
      then (b'[' ∷ []) ++ (url.host ++ (b']' ∷ []))
      else url.host in
    let framed : line_feeds host ≡ 0 =
      if_lem (contains (b':' ∷ []) url.host) ((b'[' ∷ []) ++ (url.host ++ (b']' ∷ []))) url.host
        (in_brackets url.host clean) clean in
    if_lem (url.port == 443) host (host ++ b':' ∷ decimal url.port) framed
      (with_port host url.port framed)

-- What stands between the path and the host, and between the host and the length.
abbrev to_host : List ℕ
to_host = codes " HTTP/1.1" ++ (line_break ++ codes "Host: ")

abbrev to_length : List ℕ
to_length =
    line_break
    ++ (codes "Content-Type: application/dns-message"
        ++ (line_break
            ++ (codes "Accept: application/dns-message"
                ++ (line_break
                    ++ (codes "User-Agent: "
                        ++ (user_agent ++ (line_break ++ codes "Content-Length: ")))))))

abbrev blank : List ℕ
blank = line_break ++ line_break

line_feeds-parts :
    (line_feeds (codes "POST ") ≡ 0)
    × (line_feeds to_host ≡ 1)
    × (line_feeds to_length ≡ 4)
    × (line_feeds blank ≡ 2)
unfolding line_feeds
line_feeds-parts = (refl, refl, refl, refl)

abbrev joined : List ℕ → List ℕ → List ℕ → List ℕ → List ℕ
joined path host number end =
    codes "POST " ++ (path ++ (to_host ++ (host ++ (to_length ++ (number ++ end)))))

joined-append :
    (path host number body : List ℕ)
    → joined path host number (blank ++ body) ≡ joined path host number blank ++ body
joined-append path host number body =
    let last = append_assoc number blank body in
    let inner = append_assoc host (to_length ++ (number ++ blank)) body in
    let outer = append_assoc path (to_host ++ (host ++ (to_length ++ (number ++ blank)))) body in cc

line_feeds-joined :
    (path host number : List ℕ)
    → line_feeds path ≡ 0
    → line_feeds host ≡ 0
    → line_feeds number ≡ 0
    → line_feeds (joined path host number blank) ≡ 7
line_feeds-joined path host number p h n =
    let (post, to_h, to_l, end) = line_feeds-parts in
    line_feeds-append (codes "POST ")
      (path ++ (to_host ++ (host ++ (to_length ++ (number ++ blank)))))
    ∙ omega (
      arith,
      post,
      to_h,
      to_l,
      end,
      p,
      h,
      n,
      line_feeds-append path (to_host ++ (host ++ (to_length ++ (number ++ blank)))),
      line_feeds-append to_host (host ++ (to_length ++ (number ++ blank))),
      line_feeds-append host (to_length ++ (number ++ blank)),
      line_feeds-append to_length (number ++ blank),
      line_feeds-append number blank,
    )

-- For a URL whose host and path hold only printable ASCII without spaces, and for any port and
-- body, the HTTP request is a head that has exactly seven line feeds, with the body behind it.
pub build_http_request-line_feeds :
    (url : HttpsUrl) (body : List ℕ)
    → All IsGraphic url.host
    → All IsGraphic url.path
    → (head : List ℕ) × (build_http_request url body ≡ head ++ body) × (line_feeds head ≡ 7)
unfolding build_http_request
build_http_request-line_feeds url body graphic_host graphic_path =
    let number = decimal (length body) in
    (
      joined url.path (host_header url) number blank,
      joined-append url.path (host_header url) number body,
      line_feeds-joined url.path (host_header url) number (line_feeds-graphic url.path graphic_path)
          (host_header-line_feeds url graphic_host)
          (line_feeds-decimal_fuel (suc (length body)) (length body)),
    )
