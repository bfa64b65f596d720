-- ===== src/Tests/Network.antt =====
-- Runs of the port table and the routing table, over addresses that are numbers: an address block is
-- a length and a number, and contains the addresses that have its number as their quotient.
use eos_base.Base.{
  ℕ, suc, ◌+◌, ◌-◌, ◌/◌, ◌^◌, ◌≤◌, ◌≡◌, refl, true, false, none, some, List, [], ◌∷◌, arith, ◌==◌,
  ltb, ◌&&◌, if◌then◌else◌, take, drop, Bool-cases, inl, inr,
}
use eos_base.Base.Map
use eos_base.Base.Text.{bytes}
use eos_base.Netstack.PortSet.{
  PortSet, get_port, claim_port, acquire_port, release_port, wrap16, first_vacant, take_vacant,
}
use eos_base.Netstack.PortSet.Laws.{
  IsCounted, uses, get_port-uses, claim_port-uses, release_port-get_port, release-acquire_port,
}
use eos_base.Netstack.RouteTable.{Rule, Smoltcp, lookup_rule, insert_rule, key}
use eos_base.Netstack.RouteTable.LongestPrefix.{
  All, IsSorted, InOrder, SearchFindsPlace, lookup_rule_longest, insert_rule-InOrder,
}

abbrev ports : PortSet
ports = record { from = 49152; range = 16384; next = 0; ports = (0, 1) ∷ (80, 2) ∷ [] }

ports-IsCounted : IsCounted ports
unfolding IsCounted Map.get
ports-IsCounted j = ground arith

get_port-uses_example :
    (k : ℕ) × ((get_port ports).0 ≡ some (wrap16 (49152 + k)))
    × (uses ports k ≡ 0)
    × ((j : ℕ) → uses (get_port ports).1 j ≡ (if k == j then 1 else uses ports j))
unfolding Map.size
get_port-uses_example = get_port-uses ports refl (omega arith) (omega arith)

claim_port-uses_example :
    ((claim_port ports 81).0 ≡ (uses ports 81 == 0))
    × (uses (claim_port ports 81).1 80
        ≡ (if (81 == 80) && (uses ports 81 == 0) then 1 else uses ports 80))
claim_port-uses_example = claim_port-uses ports 81 80 ports-IsCounted

release-acquire_port_example : uses (release_port (acquire_port ports 80) 80) 0 ≡ uses ports 0
release-acquire_port_example = release-acquire_port ports 80 0

given : (get_port ports).0 ≡ some 49153
unfolding get_port first_vacant take_vacant Map.contains_key Map.get Map.size
given = refl

release_port-get_port_example : release_port (get_port ports).1 49153 ≡ (get_port ports).1
unfolding Map.get
release_port-get_port_example =
    release_port-get_port ports 49153 given (omega arith) (omega arith) (omega arith) refl

-- The number of keys that are less than the key.
abbrev place : List ℕ → ℕ → ℕ
place [] k = 0
place (j ∷ ks) k = let rest = place ks k in if ltb j k then suc rest else 0

abbrev net : Smoltcp ℕ (ℕ × ℕ)
net = record {
  prefix_len = λ c. c.0;
  contains_addr = λ c a. a / 2 ^ (8 - c.0) == c.1;
  addr_eq = λ a b. a == b;
  cidr_eq = λ c d. (c.0 == d.0) && (c.1 == d.1);
  binary_search = place;
}

place_before : (ks : List ℕ) (k : ℕ) → All (λ j. j ≤ k) (take (place ks k) ks)
place_before [] k = tt
place_before (j ∷ ks) k = elim (Bool-cases (ltb j k)) [
  | inl less ↦ rw less (ground arith, place_before ks k)
  | inr not_less ↦ rw not_less tt
]

All-trans : (j k : ℕ) (ks : List ℕ) → k ≤ j → All (λ i. j ≤ i) ks → All (λ i. k ≤ i) ks
All-trans j k [] h a = tt
All-trans j k (i ∷ ks) h a = (omega (arith, a.0), All-trans j k ks h a.1)

place_behind : (ks : List ℕ) (k : ℕ) → IsSorted ks → All (λ j. k ≤ j) (drop (place ks k) ks)
place_behind [] k s = tt
place_behind (j ∷ ks) k s = elim (Bool-cases (ltb j k)) [
  | inl less ↦ rw less (place_behind ks k s.1)
  | inr not_less ↦ rw not_less (ground arith, All-trans j k ks (ground arith) s.0)
]

net-SearchFindsPlace : SearchFindsPlace net
net-SearchFindsPlace = record { before = λ ks k _. place_before ks k; behind = place_behind }

-- The rule for everything, and one for the addresses from 160 to 175.
abbrev all_rule : Rule ℕ (ℕ × ℕ)
all_rule = record { filter = (0, 0); via = some 161; dev = bytes "eth0"; src = 162 }

abbrev lan_rule : Rule ℕ (ℕ × ℕ)
lan_rule = record { filter = (4, 10); via = none; dev = bytes "eth0"; src = 162 }

abbrev rules : List (Rule ℕ (ℕ × ℕ))
rules = all_rule ∷ lan_rule ∷ []

rules-InOrder : InOrder net rules
rules-InOrder = ((omega arith, tt), (tt, tt))

lookup_rule_longest_example :
    ((r : Rule ℕ (ℕ × ℕ))
      → lookup_rule net rules 165 ≡ some r
      → (net.contains_addr r.filter 165 ≡ true)
        × All (λ q. net.contains_addr q.filter 165 ≡ true → key net q ≤ key net r) rules)
    × (lookup_rule net rules 165 ≡ none → All (λ q. net.contains_addr q.filter 165 ≡ false) rules)
lookup_rule_longest_example = lookup_rule_longest net rules 165 rules-InOrder

insert_rule-InOrder_example :
    InOrder net
      (insert_rule net rules (record { filter = (2, 1); via = none; dev = bytes "lo"; src = 1 }))
insert_rule-InOrder_example =
    insert_rule-InOrder net net-SearchFindsPlace rules
      (record { filter = (2, 1); via = none; dev = bytes "lo"; src = 1 }) rules-InOrder
