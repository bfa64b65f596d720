-- ===== src/Netstack/RouteTable/LongestPrefix.antt =====
-- The table keeps its rules in the order of their prefix lengths, and a lookup finds a rule with the
-- longest prefix.
use eos_base.Base.{
  ℕ, zero, suc, ◌≤◌, ◌≡◌, refl, ap, ◌∙◌, sym, true, false, Option, none, some, List, [], ◌∷◌, ◌++◌,
  map, arith, take, drop, if◌then◌else◌, Bool-cases, Option-cases, inl, inr,
}
use mathlib.Core.Path.{subst}
use mathlib.Core.Bool.{false≢true}
use mathlib.Core.Logic.{◌⊎◌}
use eos_base.Netstack.RouteTable.{
  Rule, Smoltcp, lookup_rule, insert_rule, remove_rule, change_src, key,
}

abbrev pub All {ℓ κ} : {A : Type ℓ} → (A → Type κ) → List A → Type κ
All P [] = Unit
All P (x ∷ xs) = P x × All P xs

abbrev pub IsSorted : List ℕ → Type 0
IsSorted [] = Unit
IsSorted (k ∷ ks) = All (λ j. k ≤ j) ks × IsSorted ks

All-mono {ℓ κ} :
    {A : Type ℓ} (P Q : A → Type κ) (xs : List A) → ((x : A) → P x → Q x) → All P xs → All Q xs
All-mono P Q [] f h = tt
All-mono P Q (x ∷ xs) f h = (f x h.0, All-mono P Q xs f h.1)

All-insert :
    (P : ℕ → Type 0) (i k : ℕ) (ks : List ℕ) → P k → All P ks → All P (take i ks ++ (k ∷ drop i ks))
All-insert P zero k ks h hs = (h, hs)
All-insert P (suc i) k [] h hs = (h, hs)
All-insert P (suc i) k (x ∷ ks) h hs = (hs.0, All-insert P i k ks h hs.1)

insert-IsSorted :
    (i k : ℕ) (ks : List ℕ)
    → IsSorted ks
    → All (λ j. j ≤ k) (take i ks)
    → All (λ j. k ≤ j) (drop i ks)
    → IsSorted (take i ks ++ (k ∷ drop i ks))
insert-IsSorted zero k ks s lo hi = (hi, s)
insert-IsSorted (suc i) k [] s lo hi = (hi, s)
insert-IsSorted (suc i) k (x ∷ ks) s lo hi =
    (All-insert (λ j. x ≤ j) i k ks lo.0 s.0, insert-IsSorted i k ks s.1 lo.1 hi)

map-insert {ℓ} :
    {A : Type ℓ} (f : A → ℕ) (i : ℕ) (a : A) (xs : List A)
    → map f (take i xs ++ (a ∷ drop i xs)) ≡ take i (map f xs) ++ (f a ∷ drop i (map f xs))
map-insert f zero a xs = refl
map-insert f (suc i) a [] = refl
map-insert f (suc i) a (x ∷ xs) = ap (λ ks. f x ∷ ks) (map-insert f i a xs)

module _ {IpAddress IpCidr : Type 0} (net : Smoltcp IpAddress IpCidr) where
  abbrev pub InOrder : List (Rule IpAddress IpCidr) → Type 0
  InOrder rules = IsSorted (map (key net) rules)

  -- What the standard library says of `binary_search_by_key` on a sorted list: the keys before the
  -- index that it gives, found or not, are at most the key, and those from it on are at least the key.
  pub record SearchFindsPlace : Type 0 where
    pub before :
        (ks : List ℕ) (k : ℕ) → IsSorted ks → All (λ j. j ≤ k) (take (net.binary_search ks k) ks)
    pub behind :
        (ks : List ℕ) (k : ℕ) → IsSorted ks → All (λ j. k ≤ j) (drop (net.binary_search ks k) ks)

  -- A new rule goes where it keeps the table in order, if the binary search does what it says.
  pub insert_rule-InOrder :
      SearchFindsPlace
      → (rules : List (Rule IpAddress IpCidr)) (r : Rule IpAddress IpCidr) → InOrder rules
      → InOrder (insert_rule net rules r)
  unfolding insert_rule
  insert_rule-InOrder find rules r s =
      let ks = map (key net) rules in
      let i = net.binary_search ks (key net r) in
      rw (map-insert (key net) i r rules) (
        insert-IsSorted i (key net r) ks s (find.before ks (key net r) s)
          (find.behind ks (key net r) s))

  remove_rule-All :
      (P : ℕ → Type 0) (rules : List (Rule IpAddress IpCidr)) (filter : IpCidr)
      → All P (map (key net) rules)
      → All P (map (key net) (remove_rule net rules filter))
  unfolding remove_rule
  remove_rule-All P [] filter h = tt
  remove_rule-All P (r ∷ rules) filter h = elim (Bool-cases (net.cidr_eq r.filter filter)) [
    | inl e ↦ rw e (remove_rule-All P rules filter h.1)
    | inr n ↦ rw n (h.0, remove_rule-All P rules filter h.1)
  ]

  -- Removing a filter keeps the order and leaves no rule with that filter.
  remove_rule-InOrder :
      (rules : List (Rule IpAddress IpCidr)) (filter : IpCidr)
      → InOrder rules
      → InOrder (remove_rule net rules filter)
        × All (λ r. net.cidr_eq r.filter filter ≡ false) (remove_rule net rules filter)
  unfolding remove_rule
  remove_rule-InOrder [] filter s = (tt, tt)
  remove_rule-InOrder (r ∷ rules) filter s =
      let rest = remove_rule-InOrder rules filter s.1 in
      elim (Bool-cases (net.cidr_eq r.filter filter)) [
        | inl e ↦ rw e rest
        | inr n ↦
            rw n ((remove_rule-All (λ j. key net r ≤ j) rules filter s.0, rest.0), (n, rest.1))
      ]

  lookup_rule-nil : (dst : IpAddress) → lookup_rule net [] dst ≡ none
  unfolding lookup_rule
  lookup_rule-nil dst = refl

  -- The rule that is found in the tail, or else the first rule.
  lookup_rule-cons :
      (q : Rule IpAddress IpCidr) (rules : List (Rule IpAddress IpCidr)) (dst : IpAddress)
      (r : Rule IpAddress IpCidr)
      → lookup_rule net (q ∷ rules) dst ≡ some r
      → (lookup_rule net rules dst ≡ some r)
        ⊎ ((lookup_rule net rules dst ≡ none) × (net.contains_addr q.filter dst ≡ true) × (q ≡ r))
  unfolding lookup_rule
  lookup_rule-cons q rules dst r e = elim (Option-cases (lookup_rule net rules dst)) [
    | inr (r', found) ↦ inl (cc (found, e))
    | inl nothing ↦ elim (Bool-cases (net.contains_addr q.filter dst)) [
      | inl fits ↦ inr (nothing, fits, cc (rw (nothing, fits) at e))
      | inr not_fits ↦ absurd (cc (rw (nothing, not_fits) at e))
    ]
  ]

  -- What is true of all rules is true of the one that is found.
  lookup_rule-All :
      (P : ℕ → Type 0) (rules : List (Rule IpAddress IpCidr)) (dst : IpAddress)
      (r : Rule IpAddress IpCidr)
      → lookup_rule net rules dst ≡ some r
      → All P (map (key net) rules)
      → P (key net r)
  lookup_rule-All P [] dst r e h = absurd (cc (lookup_rule-nil dst, e))
  lookup_rule-All P (q ∷ rules) dst r e h = elim (lookup_rule-cons q rules dst r e) [
    | inl found ↦ lookup_rule-All P rules dst r found h.1
    | inr (_, _, same) ↦ subst (λ x. P (key net x)) same h.0
  ]

  lookup_rule-none :
      (rules : List (Rule IpAddress IpCidr)) (dst : IpAddress)
      → lookup_rule net rules dst ≡ none
      → All (λ q. net.contains_addr q.filter dst ≡ false) rules
  unfolding lookup_rule
  lookup_rule-none [] dst e = tt
  lookup_rule-none (q ∷ rules) dst e = elim (Option-cases (lookup_rule net rules dst)) [
    | inr (r', found) ↦ absurd (ground arith)
    | inl nothing ↦ elim (Bool-cases (net.contains_addr q.filter dst)) [
      | inl fits ↦ absurd (ground arith)
      | inr not_fits ↦ (not_fits, lookup_rule-none rules dst nothing)
    ]
  ]

  -- In a table in order, the rule that a lookup finds contains the address, and no rule that contains
  -- it has a longer prefix; if the lookup finds none, no rule contains the address.
  pub lookup_rule_longest :
      (rules : List (Rule IpAddress IpCidr)) (dst : IpAddress)
      → InOrder rules
      → ((r : Rule IpAddress IpCidr)
          → lookup_rule net rules dst ≡ some r
          → (net.contains_addr r.filter dst ≡ true)
            × All (λ q. net.contains_addr q.filter dst ≡ true → key net q ≤ key net r) rules)
        × (lookup_rule net rules dst ≡ none
            → All (λ q. net.contains_addr q.filter dst ≡ false) rules)
  lookup_rule_longest rules dst s = (λ r. longest rules r s, lookup_rule-none rules dst)
    where
      longest :
          (rules : List (Rule IpAddress IpCidr)) (r : Rule IpAddress IpCidr)
          → InOrder rules
          → lookup_rule net rules dst ≡ some r
          → (net.contains_addr r.filter dst ≡ true)
            × All (λ q. net.contains_addr q.filter dst ≡ true → key net q ≤ key net r) rules
      longest [] r s e = absurd (cc (lookup_rule-nil dst, e))
      longest (q ∷ rules) r s e = elim (lookup_rule-cons q rules dst r e) [
        | inl found ↦
            let rest = longest rules r s.1 found in
            (rest.0, (λ _. lookup_rule-All (λ j. key net q ≤ j) rules dst r found s.0, rest.1))
        | inr (nothing, fits, same) ↦ (
          subst (λ x. net.contains_addr x.filter dst ≡ true) same fits,
          (
            λ _. subst (λ x. key net q ≤ key net x) same (omega arith),
            All-mono (λ p. net.contains_addr p.filter dst ≡ false)
                (λ p. net.contains_addr p.filter dst ≡ true → key net p ≤ key net r) rules
                (λ p h h'. absurd (false≢true (sym h ∙ h'))) (lookup_rule-none rules dst nothing),
          ),
        )
      ]

  -- The rule with its source address changed.
  abbrev changed : IpAddress → IpAddress → Rule IpAddress IpCidr → Rule IpAddress IpCidr
  changed old new r = if net.addr_eq r.src old then record r { src = new } else r

  abbrev map_option :
      (Rule IpAddress IpCidr → Rule IpAddress IpCidr)
      → Option (Rule IpAddress IpCidr)
      → Option (Rule IpAddress IpCidr)
  map_option f none = none
  map_option f (some r) = some (f r)

  -- A change of a source address finds the same rules as before, with that address changed.
  lookup_rule-change_src :
      (rules : List (Rule IpAddress IpCidr)) (old new dst : IpAddress)
      → lookup_rule net (change_src net rules old new) dst
        ≡ map_option (changed old new) (lookup_rule net rules dst)
  unfolding lookup_rule change_src
  lookup_rule-change_src [] old new dst = refl
  lookup_rule-change_src (q ∷ rules) old new dst =
      ground (arith, lookup_rule-change_src rules old new dst)
