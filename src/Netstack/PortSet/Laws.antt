-- ===== src/Netstack/PortSet/Laws.antt =====
-- Which numbers `PortSet` gives out, and what a release does to them.
use eos_base.Base.{
  sym, ◌∙◌, Option-cases, ℕ, zero, suc, ◌+◌, ◌%◌, ◌^◌, ◌≤◌, ◌<◌, ◌≡◌, ◌≢◌, refl, false, none, some,
  arith, ◌==◌, leb, ◌&&◌, if◌then◌else◌, Bool-cases, inl, inr,
}
use eos_base.Base.Map
use eos_base.Base.Map.{Map, get-insert, get-remove}
use eos_base.Base.Map.Size.{size-remove_lt, contains_key-remove}
use eos_base.Netstack.PortSet.{
  PortSet, first_vacant, take_vacant, get_port, claim_port, acquire_port, release_port, wrap16,
  count_of, plus_one, minus_one,
}

-- How often a number is in use.
abbrev pub uses : PortSet → ℕ → ℕ
uses p port = count_of (Map.get p.ports port)

-- No port is kept with a count of 0.
unfoldable pub IsCounted : PortSet → Type 0
IsCounted p = (port : ℕ) → Map.get p.ports port ≢ some 0

-- If no port is kept with a count of 0, a claim succeeds exactly if the port is not in use, and then
-- uses it once; no other port changes.
pub claim_port-uses :
    (p : PortSet) (port j : ℕ)
    → IsCounted p
    → ((claim_port p port).0 ≡ (uses p port == 0))
      × (uses (claim_port p port).1 j ≡ (if (port == j) && (uses p port == 0) then 1 else uses p j))
unfolding claim_port IsCounted Map.contains_key
claim_port-uses p port j counted = ground (arith, get-insert p.ports port 1 j, counted port)

-- An acquired port has one more use, up to the size of a word; no other port changes.
pub uses-acquire_port :
    (p : PortSet) (port j : ℕ)
    → uses (acquire_port p port) j ≡ (if port == j then plus_one (uses p port) else uses p j)
unfolding acquire_port
uses-acquire_port p port j = ground (arith, get-insert p.ports port (plus_one (uses p port)) j)

-- A released port that is kept has one use less; no other port changes.
pub uses-release_port :
    (p : PortSet) (port n j : ℕ)
    → Map.get p.ports port ≡ some n
    → uses (release_port p port) j ≡ (if port == j then minus_one n else uses p j)
unfolding release_port
uses-release_port p port n j kept =
    ground (arith, get-insert p.ports port (minus_one n) j, get-remove p.ports port j)

-- Releasing a port that was just acquired brings the uses of every port back.
pub release-acquire_port :
    (p : PortSet) (port j : ℕ) → uses (release_port (acquire_port p port) port) j ≡ uses p j
unfolding acquire_port
release-acquire_port p port j =
    let kept : Map.get (acquire_port p port).ports port ≡ some (plus_one (uses p port)) =
      ground (arith, get-insert p.ports port (plus_one (uses p port)) port) in
    ground (
      arith,
      uses-release_port (acquire_port p port) port (plus_one (uses p port)) j kept,
      uses-acquire_port p port j,
    )

pub acquire_port-IsCounted :
    (p : PortSet) (port : ℕ)
    → uses p port + 1 < 2 ^ 64
    → IsCounted p
    → IsCounted (acquire_port p port)
unfolding acquire_port IsCounted
acquire_port-IsCounted p port small h j =
    ground (arith, get-insert p.ports port (plus_one (uses p port)) j, h j)

pub release_port-IsCounted :
    (p : PortSet) (port : ℕ) → IsCounted p → IsCounted (release_port p port)
unfolding release_port IsCounted
release_port-IsCounted p port h j = elim (Option-cases (Map.get p.ports port)) [
  | inl free ↦ rw (release_port, free) (h j)
  | inr (n, kept) ↦
      ground (arith, kept, get-insert p.ports port (minus_one n) j, get-remove p.ports port j, h j)
]

-- The loop stops at a number that is not in use.
first_vacant_unused :
    (f : ℕ) (ports : Map ℕ) (next key : ℕ)
    → first_vacant f ports next ≡ some key
    → Map.get ports key ≡ none
unfolding first_vacant Map.contains_key
first_vacant_unused zero ports next key h = ground arith
first_vacant_unused (suc f) ports next key h =
    ground (arith, first_vacant_unused f ports (wrap16 (next + 1)) key)

first_vacant_range :
    (f : ℕ) (ports : Map ℕ) (next key : ℕ)
    → next < 2 ^ 16
    → first_vacant f ports next ≡ some key
    → key < 2 ^ 16
unfolding first_vacant
first_vacant_range zero ports next key r h = absurd (ground arith)
first_vacant_range (suc f) ports next key r h =
    ground (arith, first_vacant_range f ports (wrap16 (next + 1)) key)

release-take_vacant :
    (p : PortSet) (key port : ℕ)
    → 0 < p.from
    → p.from < 2 ^ 16
    → key < 2 ^ 16
    → Map.get p.ports port ≡ none
    → port ≡ wrap16 (p.from + key)
    → release_port (take_vacant p (some key)).1 port ≡ (take_vacant p (some key)).1
unfolding release_port take_vacant
release-take_vacant p key port pos fits r unused e = ground (arith, get-insert p.ports key 1 port)

-- A port that `get_port` gives is counted under its distance from `from`, not under its number: if
-- `from` and the next number are words, `from` is not 0, and the port's number itself is not in use, a
-- release of the port changes nothing, so the port stays taken.
pub release_port-get_port :
    (p : PortSet) (port : ℕ)
    → (get_port p).0 ≡ some port
    → 0 < p.from
    → p.from < 2 ^ 16
    → p.next < 2 ^ 16
    → Map.get p.ports port ≡ none
    → release_port (get_port p).1 port ≡ (get_port p).1
unfolding get_port
release_port-get_port p port h pos fits r unused =
    elim (Bool-cases (leb p.range (Map.size p.ports))) [
      | inl full ↦ absurd (ground arith)
      | inr room ↦ elim (Option-cases (first_vacant (suc (Map.size p.ports)) p.ports p.next)) [
        | inl none_left ↦ absurd (ground arith)
        | inr (key, found) ↦
            let key_range =
              first_vacant_range (suc (Map.size p.ports)) p.ports p.next key r found in
            rw (room, found)
              (release-take_vacant p key port pos fits key_range unused (ground arith))
      ]
    ]

-- Taking out a number that the loop does not meet does not change where it stops.
first_vacant-remove :
    (f : ℕ) (m : Map ℕ) (k d : ℕ)
    → k < 2 ^ 16
    → 0 < d
    → d + f ≤ 2 ^ 16
    → first_vacant f (Map.remove m k) ((k + d) % 2 ^ 16) ≡ first_vacant f m ((k + d) % 2 ^ 16)
unfolding first_vacant
first_vacant-remove zero m k d h p q = refl
first_vacant-remove (suc f) m k d h p q =
    ground (arith, contains_key-remove m k ((k + d) % 2 ^ 16), first_vacant-remove f m k (d + 1) h)

-- With more rounds than numbers in use the loop stops.
first_vacant_total :
    (f : ℕ) (m : Map ℕ) (n : ℕ)
    → n < 2 ^ 16
    → Map.size m < f
    → f ≤ 2 ^ 16
    → (k : ℕ) × (first_vacant f m n ≡ some k)
unfolding first_vacant
first_vacant_total zero m n r h q = absurd (omega arith)
first_vacant_total (suc f) m n r h q = elim (Bool-cases (Map.contains_key m n)) [
  | inr unused ↦ (n, rw unused)
  | inl used ↦
      let smaller = size-remove_lt m n used in
      let (k, found) =
        first_vacant_total f (Map.remove m n) (wrap16 (n + 1)) (omega arith)
          (omega (arith, smaller)) (omega arith) in
      (k, rw used (sym (first_vacant-remove f m n 1 r (omega arith) (omega arith)) ∙ found))
]

-- If fewer numbers are in use than the range has, and the next number and the count of those in use
-- fit 16 bits, `get_port` gives the port `from + key`, in 16 bits, for a number `key` that is not in
-- use; `key` then has one use, and no other number changes.
pub get_port-uses :
    (p : PortSet)
    → leb p.range (Map.size p.ports) ≡ false
    → p.next < 2 ^ 16
    → Map.size p.ports < 2 ^ 16
    → (key : ℕ) × ((get_port p).0 ≡ some (wrap16 (p.from + key)))
      × (uses p key ≡ 0)
      × ((j : ℕ) → uses (get_port p).1 j ≡ (if key == j then 1 else uses p j))
unfolding get_port take_vacant
get_port-uses p room r few =
    let (key, found) =
      first_vacant_total (suc (Map.size p.ports)) p.ports p.next r (omega arith) (omega arith) in
    let unused = first_vacant_unused (suc (Map.size p.ports)) p.ports p.next key found in
    (
      key,
      rw (room, found),
      rw unused,
      λ j. rw (room, found) (ground (arith, get-insert p.ports key 1 j)),
    )
