-- ===== src/Dns/Strings/Compare.antt =====
-- `Labels::eq_ignore_ascii_case` of dns/src/strings.rs.
use dog.Prelude.{◌≡◌, ◌↔◌, refl, Bool, true, ◌&&◌, [], ◌∷◌, map, arith}
use dog.Prelude.{◌==◌, length, to_ascii_lowercase, eq_ignore_ascii_case, eq_ignore_ascii_case_iff}
use dog.Dns.Strings.Defs.{Segments, Labels}

-- `zip` and `all`: the pairs as far as both lists go.
unfoldable pub all_pairs : Segments → Segments → Bool
all_pairs [] bs = true
all_pairs (a ∷ as') [] = true
all_pairs (a ∷ as') (b ∷ bs) = eq_ignore_ascii_case a b && all_pairs as' bs

unfoldable pub labels_eq_ignore_ascii_case : Labels → Labels → Bool
labels_eq_ignore_ascii_case labels other =
    length labels.segments == length other.segments && all_pairs labels.segments other.segments

-- A name in lower case, by which names are compared (RFC 4343).
abbrev pub lower_case : Segments → Segments
lower_case = map (map to_ascii_lowercase)

pairs_lem :
    (as' bs : Segments)
    → ((length as' ≡ length bs) × (all_pairs as' bs ≡ true)) ↔ (lower_case as' ≡ lower_case bs)
unfolding all_pairs
pairs_lem [] [] = ((λ _. refl), (λ _. (refl, refl)))
pairs_lem [] (b ∷ bs) = ((λ h. absurd (omega arith)), (λ e. cc))
pairs_lem (a ∷ as') [] = ((λ h. absurd (omega arith)), (λ e. cc))
pairs_lem (a ∷ as') (b ∷ bs) =
    let first = eq_ignore_ascii_case_iff a b in
    let rest = pairs_lem as' bs in
    (
      λ (l, h).
          let (same, more) : (eq_ignore_ascii_case a b ≡ true) × (all_pairs as' bs ≡ true) =
            ground arith in
          cc (first.0 same, rest.0 (omega arith, more)),
      λ e.
          let (l, more) = rest.1 (cc e) in
          let same = first.1 (cc e) in (omega arith, rw (same, more) refl),
    )

pub labels_eq_ignore_ascii_case_iff :
    (labels other : Labels)
    → (labels_eq_ignore_ascii_case labels other ≡ true)
      ↔ (lower_case labels.segments ≡ lower_case other.segments)
unfolding labels_eq_ignore_ascii_case
labels_eq_ignore_ascii_case_iff labels other =
    let pairs = pairs_lem labels.segments other.segments in
    ((λ h. pairs.0 (ground arith)), (λ e. let (l, h) = pairs.1 e in ground arith))
