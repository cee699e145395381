-- ===== src/Client/Resolve.antt =====
-- resolve.rs of src: the nameservers and the search list. Texts are lists of code points.
pub mod Usable
use dog.Prelude.{
  ℕ, zero, suc, Option, none, some, Bool, true, false, ◌||◌, List, [], ◌∷◌, ◌++◌, codes, ◌==◌, ltb,
  if◌then◌else◌, length, take,
}
use dog.Dns.Strings.Defs.{Labels, len, extend}
use dog.Dns.Strings.Encode.{Characters, Encoded, encoded, invalid, encode}
use dog.Transport.Address.{IpParser, strip_prefix}

pub record Resolver : Type 0 where
  pub nameservers : List (List ℕ)
  pub search_list : List (List ℕ)

pub data ResolverType : Type 0 where
  system_default : ResolverType
  specific : List ℕ → ResolverType

-- `NoNameserver`, and `IO` with the number of the error.
pub data ResolverLookupError : Type 0 where
  no_nameserver : ResolverLookupError
  io : ℕ → ResolverLookupError

pub data Lookup {ℓ} (A : Type ℓ) : Type ℓ where
  found : A → Lookup A
  failed : ResolverLookupError → Lookup A

-- A line that was read, or the error of reading it.
pub data Line : Type 0 where
  line : List ℕ → Line
  unread : ℕ → Line

-- `str::trim` of std.
pub record Trim : Type 0 where
  pub trim : List ℕ → List ℕ

-- `char::is_ascii_whitespace`
abbrev pub is_ascii_whitespace : ℕ → Bool
is_ascii_whitespace c = c == 32 || (c == 9 || (c == 10 || (c == 12 || c == 13)))

-- A word that has begun is kept, if it has a character.
abbrev pub keep_word : List ℕ → List (List ℕ) → List (List ℕ)
keep_word [] words = words
keep_word (c ∷ word) words = (c ∷ word) ∷ words

-- `split_ascii_whitespace`, with the word so far.
unfoldable pub split_words : List ℕ → List ℕ → List (List ℕ)
split_words word [] = keep_word word []
split_words word (c ∷ text) =
    if is_ascii_whitespace c
    then keep_word word (split_words [] text)
    else split_words (word ++ c ∷ []) text

-- `MAX_NAMESERVERS`
abbrev pub max_nameservers : ℕ
max_nameservers = 3

-- The end of `parse_resolv_conf`.
abbrev pub finish : List (List ℕ) → List (List ℕ) → Lookup Resolver
finish [] search_list = failed no_nameserver
finish (n ∷ nameservers) search_list =
    found
      (record { nameservers = take max_nameservers (n ∷ nameservers); search_list = search_list })

-- The `if let` on a search line.
abbrev pub searched : Option (List ℕ) → List (List ℕ) → List (List ℕ)
searched none search_list = search_list
searched (some search) search_list = split_words [] search

module _ ⦃P : IpParser⦄ ⦃T : Trim⦄ where
  -- The `if let` on a nameserver line.
  abbrev pub with_nameserver : Option (List ℕ) → List (List ℕ) → List (List ℕ)
  with_nameserver none nameservers = nameservers
  with_nameserver (some text) nameservers =
      if P.is_ip (T.trim text) then nameservers ++ T.trim text ∷ [] else nameservers

  -- The loop of `parse_resolv_conf`.
  unfoldable pub parse_lines : List Line → List (List ℕ) → List (List ℕ) → Lookup Resolver
  parse_lines [] nameservers search_list = finish nameservers search_list
  parse_lines (unread e ∷ lines) nameservers search_list = failed (io e)
  parse_lines (line text ∷ lines) nameservers search_list =
      parse_lines lines (with_nameserver (strip_prefix (codes "nameserver ") text) nameservers)
        (searched (strip_prefix (codes "search ") text) search_list)

  unfoldable pub parse_resolv_conf : List Line → Lookup Resolver
  parse_resolv_conf lines = parse_lines lines [] []

-- `ResolverType::obtain`, given what `system_nameservers` returns.
unfoldable pub obtain : Lookup Resolver → ResolverType → Lookup Resolver
obtain system system_default = system
obtain system (specific nameserver) =
    found (record { nameservers = nameserver ∷ []; search_list = [] })

-- A name of the search list is put behind the name, if it is one.
abbrev pub suffixed : Labels → Encoded Labels → List Labels → List Labels
suffixed name (encoded suffix) list = extend name suffix ∷ list
suffixed name (invalid reason) list = list

module _ ⦃C : Characters⦄ where
  -- The loop of `name_list`, and the name itself behind it.
  unfoldable pub search_names : Labels → List (List ℕ) → List Labels
  search_names name [] = name ∷ []
  search_names name (search ∷ rest) = suffixed name (encode search) (search_names name rest)

  unfoldable pub name_list : Resolver → Labels → List Labels
  name_list resolver name =
      if ltb 1 (len name) then name ∷ [] else search_names name resolver.search_list
