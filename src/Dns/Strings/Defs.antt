-- ===== src/Dns/Strings/Defs.antt =====
-- The type `Labels` of dns/src/strings.rs, with its small methods.
use dog.Prelude.{ℕ, ◌+◌, List, [], ◌∷◌, ◌++◌, length}

-- One list of bytes for each label.
abbrev pub Segments : Type 0
Segments = List (List ℕ)

pub record Labels : Type 0 where
  pub segments : Segments

abbrev pub root : Labels
root = record { segments = [] }

-- `MAX_LABEL` and `MAX_NAME`.
abbrev pub max_label : ℕ
max_label = 63

abbrev pub max_name : ℕ
max_name = 255

-- The sum of `segment.len() + 1`.
unfoldable pub segments_length : Segments → ℕ
segments_length [] = 0
segments_length (segment ∷ rest) = length segment + 1 + segments_length rest

unfoldable pub wire_length : Labels → ℕ
wire_length labels = segments_length labels.segments + 1

unfoldable pub len : Labels → ℕ
len labels = length labels.segments

unfoldable pub extend : Labels → Labels → Labels
extend labels other = record { segments = labels.segments ++ other.segments }
