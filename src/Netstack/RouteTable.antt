-- ===== src/Netstack/RouteTable.antt =====
-- `RouteTable` of netstack/src/router/route_table.rs. Addresses and address blocks are those of the
-- `smoltcp` crate: a type each, with the functions that the table calls, is a parameter, and so is
-- the standard library's binary search. The names of devices are shared texts.
pub mod LongestPrefix
use eos_base.Base.{ℕ, Bool, Option, none, some, List, [], ◌∷◌, ◌++◌, map, if◌then◌else◌, take, drop}
use eos_base.Base.Text.{Str}

module _ (IpAddress IpCidr : Type 0) where
  pub record Rule : Type 0 where
    pub filter : IpCidr
    pub via : Option IpAddress
    pub dev : Str
    pub src : IpAddress

  -- The functions of `IpCidr` and `IpAddress` that the table calls, and `binary_search_by_key` as
  -- the index that it gives, found or not.
  pub record Smoltcp : Type 0 where
    pub prefix_len : IpCidr → ℕ
    pub contains_addr : IpCidr → IpAddress → Bool
    pub addr_eq : IpAddress → IpAddress → Bool
    pub cidr_eq : IpCidr → IpCidr → Bool
    pub binary_search : List ℕ → ℕ → ℕ

module _ {IpAddress IpCidr : Type 0} (net : Smoltcp IpAddress IpCidr) where
  abbrev pub RouteTable : Type 0
  RouteTable = List (Rule IpAddress IpCidr)

  abbrev pub or_else :
      Option (Rule IpAddress IpCidr)
      → Option (Rule IpAddress IpCidr)
      → Option (Rule IpAddress IpCidr)
  or_else none other = other
  or_else (some r) other = some r

  -- `iter().rev().find(..)`: the last rule that fits.
  unfoldable pub lookup_rule : RouteTable → IpAddress → Option (Rule IpAddress IpCidr)
  lookup_rule [] dst = none
  lookup_rule (r ∷ rules) dst =
      or_else (lookup_rule rules dst) (if net.contains_addr r.filter dst then some r else none)

  unfoldable pub lookup_src_addr : RouteTable → IpAddress → Option IpAddress
  lookup_src_addr rules dst = elim (lookup_rule rules dst) [ none ↦ none | some r ↦ some r.src ]

  unfoldable pub lookup_gateway : RouteTable → IpAddress → Option IpAddress
  lookup_gateway rules dst = elim (lookup_rule rules dst) [ none ↦ none | some r ↦ r.via ]

  unfoldable pub lookup_device : RouteTable → IpAddress → Option Str
  lookup_device rules dst = elim (lookup_rule rules dst) [ none ↦ none | some r ↦ some r.dev ]

  abbrev pub key : Rule IpAddress IpCidr → ℕ
  key r = net.prefix_len r.filter

  -- `Vec::insert` at the index of the search.
  unfoldable pub insert_rule : RouteTable → Rule IpAddress IpCidr → RouteTable
  insert_rule rules new_rule =
      let i = net.binary_search (map key rules) (key new_rule) in
      take i rules ++ (new_rule ∷ drop i rules)

  -- `retain(|rule| rule.filter != filter)`
  unfoldable pub remove_rule : RouteTable → IpCidr → RouteTable
  remove_rule [] filter = []
  remove_rule (r ∷ rules) filter =
      let rest = remove_rule rules filter in if net.cidr_eq r.filter filter then rest else r ∷ rest

  unfoldable pub change_src : RouteTable → IpAddress → IpAddress → RouteTable
  change_src [] old_src new_src = []
  change_src (r ∷ rules) old_src new_src =
      (if net.addr_eq r.src old_src then record r { src = new_src } else r)
      ∷ change_src rules old_src new_src
