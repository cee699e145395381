-- ===== src/Client/Resolve/Usable.antt =====
-- The nameservers of a `resolv.conf` that is accepted.
use dog.Prelude.{
  ℕ, ◌≤◌, ◌≡◌, inl, inr, Option, none, some, true, Bool-cases, List, [], ◌∷◌, arith, codes, length,
  take, All, All-append, All-take,
}
use mathlib.Core.Path.{subst}
use dog.Transport.Address.{IpParser, strip_prefix}
use dog.Client.Resolve.{
  Resolver, Lookup, found, failed, Line, line, unread, Trim, finish, searched, with_nameserver,
  parse_lines, parse_resolv_conf,
}

module _ ⦃P : IpParser⦄ where
  -- Addresses, one at least, and no more than the system's own resolver uses.
  pub record IsUsable (resolver : Resolver) : Type 0 where
    pub addresses : All (λ n. P.is_ip n ≡ true) resolver.nameservers
    pub some_one : 1 ≤ length resolver.nameservers
    pub few : length resolver.nameservers ≤ 3

  abbrev Holds : Lookup Resolver → Type 0
  Holds (found resolver) = IsUsable resolver
  Holds (failed e) = Unit

  finish-IsUsable :
      (nameservers search_list : List (List ℕ))
      → All (λ n. P.is_ip n ≡ true) nameservers
      → Holds (finish nameservers search_list)
  finish-IsUsable [] search_list h = tt
  finish-IsUsable (n ∷ nameservers) search_list h = record {
    addresses = All-take (λ m. P.is_ip m ≡ true) 3 (n ∷ nameservers) h;
    some_one = omega arith;
    few = three (n ∷ nameservers);
  }
    where
      three : (xs : List (List ℕ)) → length (take 3 xs) ≤ 3
      three [] = omega arith
      three (a ∷ []) = omega arith
      three (a ∷ b ∷ []) = omega arith
      three (a ∷ b ∷ c ∷ xs) = omega arith

  module _ ⦃T : Trim⦄ where
    with_nameserver-All :
        (text : Option (List ℕ)) (nameservers : List (List ℕ))
        → All (λ n. P.is_ip n ≡ true) nameservers
        → All (λ n. P.is_ip n ≡ true) (with_nameserver text nameservers)
    with_nameserver-All none nameservers h = h
    with_nameserver-All (some text) nameservers h = elim (Bool-cases (P.is_ip (T.trim text))) [
      | inl good ↦
          rw good (All-append (λ n. P.is_ip n ≡ true) nameservers (T.trim text ∷ []) h (good, tt))
      | inr bad ↦ rw bad h
    ]

    parse_lines-Holds :
        (lines : List Line) (nameservers search_list : List (List ℕ))
        → All (λ n. P.is_ip n ≡ true) nameservers
        → Holds (parse_lines lines nameservers search_list)
    unfolding parse_lines
    parse_lines-Holds [] nameservers search_list h = finish-IsUsable nameservers search_list h
    parse_lines-Holds (unread e ∷ lines) nameservers search_list h = tt
    parse_lines-Holds (line text ∷ lines) nameservers search_list h =
        parse_lines-Holds lines
          (with_nameserver (strip_prefix (codes "nameserver ") text) nameservers)
          (searched (strip_prefix (codes "search ") text) search_list)
          (with_nameserver-All (strip_prefix (codes "nameserver ") text) nameservers h)

    -- If `parse_resolv_conf` accepts the lines of a file, it returns at least one and at most
    -- three nameservers, and each is one that the parser of IP addresses accepts.
    pub parse_resolv_conf-IsUsable :
        (lines : List Line) (resolver : Resolver)
        → parse_resolv_conf lines ≡ found resolver
        → IsUsable resolver
    unfolding parse_resolv_conf
    parse_resolv_conf-IsUsable lines resolver e = subst Holds e (parse_lines-Holds lines [] [] tt)
