-- ===== src/Netstack/PortSet.antt =====
-- `PortSet` of netstack/src/port_set.rs: which ports a protocol has in use, with a count for each.
-- The counts are kept by the numbers that the code uses as keys.
pub mod Laws
use eos_base.Base.{
  ℕ, zero, suc, ◌+◌, ◌-◌, ◌%◌, ◌^◌, Bool, true, false, Option, none, some, [], ◌==◌, leb, ltb,
  if◌then◌else◌,
}
use eos_base.Base.Map
use eos_base.Base.Map.{Map}

pub record PortSet : Type 0 where
  pub from : ℕ
  pub range : ℕ
  pub next : ℕ
  pub ports : Map ℕ

-- `u16` arithmetic in a release build wraps.
abbrev pub wrap16 : ℕ → ℕ
wrap16 n = n % 2 ^ 16

unfoldable pub new : ℕ → ℕ → Option PortSet
new from to =
    if ltb to from
    then none
    else some (record { from = from; range = wrap16 (to - from + 1); next = 0; ports = [] })

-- The loop of `get_port`, on fuel: the first number from `next` on that is no key.
unfoldable pub first_vacant : ℕ → Map ℕ → ℕ → Option ℕ
first_vacant zero ports next = none
first_vacant (suc fuel) ports next =
    let rest = first_vacant fuel ports (wrap16 (next + 1)) in
    if Map.contains_key ports next then rest else some next

unfoldable pub take_vacant : PortSet → Option ℕ → Option ℕ × PortSet
take_vacant p none = (none, p)
take_vacant p (some key) = (
  some (wrap16 (p.from + key)),
  record p { ports = Map.insert p.ports key 1; next = wrap16 (key + 1) },
)

-- The fuel is one round more than there are keys.
unfoldable pub get_port : PortSet → Option ℕ × PortSet
unfolding take_vacant
get_port p =
    if leb p.range (Map.size p.ports)
    then (none, p)
    else take_vacant p (first_vacant (suc (Map.size p.ports)) p.ports p.next)

unfoldable pub claim_port : PortSet → ℕ → Bool × PortSet
claim_port p port =
    if Map.contains_key p.ports port
    then (false, p)
    else (true, record p { ports = Map.insert p.ports port 1 })

-- `or_insert(0)`
abbrev pub count_of : Option ℕ → ℕ
count_of none = 0
count_of (some n) = n

-- `usize` arithmetic on a count in a release build wraps.
abbrev pub plus_one : ℕ → ℕ
plus_one n = if n == 2 ^ 64 - 1 then 0 else n + 1

abbrev pub minus_one : ℕ → ℕ
minus_one n = if n == 0 then 2 ^ 64 - 1 else n - 1

unfoldable pub acquire_port : PortSet → ℕ → PortSet
acquire_port p port = record p {
  ports = Map.insert p.ports port (plus_one (count_of (Map.get p.ports port)));
}

unfoldable pub release_port : PortSet → ℕ → PortSet
release_port p port = elim (Map.get p.ports port) [
  | none ↦ p
  | some n ↦
      if minus_one n == 0
      then record p { ports = Map.remove p.ports port }
      else record p { ports = Map.insert p.ports port (minus_one n) }
]
