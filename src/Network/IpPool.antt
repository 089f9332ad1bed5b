-- ===== src/Network/IpPool.antt =====
-- src/network/ip-pool.ts. An address in the pool is known by its position, which is what the code's
-- references to the states stand for; weights are natural numbers. `Math.random` is given by
-- the position that it selects in a list of a given length.
pub mod Weighted
pub mod Picks
pub mod Members
pub mod Select
mod Tests
use prism_pipe.Prelude.{
  ℕ, zero, suc, ◌+◌, ◌-◌, ◌%◌, Bool, true, false, not, ◌&&◌, Option, none, some, String, List, [],
  ◌∷◌, str_eq, leb, ltb, ◌==◌, if◌then◌else◌, filter, includes, length, map, get_or,
}

pub record IpEntry : Type 0 where
  pub address : String
  pub weight : Option ℕ
  pub providers : Option (List String)

pub data SelectionStrategy : Type 0 where
  round_robin random least_recently_used weighted_round_robin : SelectionStrategy

pub record IpState : Type 0 where
  pub entry : IpEntry
  pub last_used_at : ℕ
  pub rate_limited : Bool
  pub rate_limited_until : ℕ
  pub usage_count : ℕ

-- `weightedIndex` is never read.
pub record IpPool : Type 0 where
  pub ips : List IpState
  pub strategy : SelectionStrategy
  pub round_robin_index : ℕ
  pub weighted_counter : ℕ

abbrev pub new_state : IpEntry → IpState
new_state entry = record {
  entry = entry;
  last_used_at = 0;
  rate_limited = false;
  rate_limited_until = 0;
  usage_count = 0;
}

-- The constructor.
unfoldable pub new : List IpEntry → Option SelectionStrategy → IpPool
new entries strategy = record {
  ips = map new_state entries;
  strategy = get_or strategy round_robin;
  round_robin_index = 0;
  weighted_counter = 0;
}

-- A state with its position in the pool.
abbrev pub Slot : Type 0
Slot = ℕ × IpState

abbrev pub slots_from : ℕ → List IpState → List Slot
slots_from i [] = []
slots_from i (s ∷ ss) = (i, s) ∷ slots_from (i + 1) ss

abbrev pub serves : String → IpEntry → Bool
serves provider entry = elim entry.providers [
  | none ↦ true
  | some [] ↦ true
  | some (p ∷ ps) ↦ includes (p ∷ ps) provider
]

-- `getCandidates`; an absent or empty provider is falsy.
abbrev pub get_candidates : Option String → List Slot → List Slot
get_candidates none slots = slots
get_candidates (some provider) slots =
    if str_eq provider ""
    then slots
    else filter (λ (slot : Slot). serves provider slot.1.entry) slots

abbrev pub refresh : ℕ → IpState → IpState
refresh now s =
    if s.rate_limited && leb s.rate_limited_until now then record s { rate_limited = false } else s

-- The loop that clears expired rate limits.
abbrev pub refresh_all : ℕ → List Slot → List Slot
refresh_all now slots = map (λ (slot : Slot). (slot.0, refresh now slot.1)) slots

abbrev pub healthy : List Slot → List Slot
healthy slots = filter (λ (slot : Slot). not slot.1.rate_limited) slots

-- All candidates where every one is rate-limited.
abbrev pub usable : List Slot → List Slot
usable slots = elim (healthy slots) [ [] ↦ slots | s ∷ ss ↦ s ∷ ss ]

-- `slots[i]`
abbrev pub get_elem? : List Slot → ℕ → Option Slot
get_elem? [] i = none
get_elem? (s ∷ ss) zero = some s
get_elem? (s ∷ ss) (suc i) = get_elem? ss i

-- The loop of `least-recently-used`.
abbrev pub oldest_of : Slot → List Slot → Slot
oldest_of oldest [] = oldest
oldest_of oldest (s ∷ ss) =
    oldest_of (if ltb s.1.last_used_at oldest.1.last_used_at then s else oldest) ss

abbrev pub weight_of : Slot → ℕ
weight_of slot = get_or slot.1.entry.weight 1

abbrev pub total_weight : List Slot → ℕ
total_weight [] = 0
total_weight (s ∷ ss) = weight_of s + total_weight ss

-- The loop of `weighted-round-robin`.
unfoldable pub turn_of : ℕ → List Slot → Option Slot
turn_of remaining [] = none
turn_of remaining (s ∷ ss) =
    let rest = turn_of (remaining - weight_of s) ss in
    if ltb remaining (weight_of s) then some s else rest

abbrev pub or_first : Option Slot → Slot → Slot
or_first none first = first
or_first (some s) first = s

-- `selectByStrategy` on a pool of at least two: `chosen n` is `Math.floor(Math.random() * n)`.
abbrev pub by_strategy : (ℕ → ℕ) → Slot → List Slot → IpPool → Option Slot × IpPool
by_strategy chosen first rest p =
    let slots = first ∷ rest in
    elim p.strategy [
      | round_robin ↦ (
        get_elem? slots (p.round_robin_index % length slots),
        record p { round_robin_index = (p.round_robin_index + 1) % length slots },
      )
      | random ↦ (get_elem? slots (chosen (length slots)), p)
      | least_recently_used ↦ (some (oldest_of first rest), p)
      | weighted_round_robin ↦ if total_weight slots == 0 then (some first, p) else (
        some (or_first (turn_of (p.weighted_counter % total_weight slots) slots) first),
        record p { weighted_counter = p.weighted_counter + 1 },
      )
    ]

unfoldable pub select_by_strategy : (ℕ → ℕ) → List Slot → IpPool → Option Slot × IpPool
unfolding turn_of
select_by_strategy chosen [] p = (none, p)
select_by_strategy chosen (s ∷ []) p = (some s, p)
select_by_strategy chosen (s ∷ t ∷ ss) p = by_strategy chosen s (t ∷ ss) p

abbrev pub use_state : ℕ → IpState → IpState
use_state now s = record s { last_used_at = now; usage_count = s.usage_count + 1 }

-- The state at a position, written over.
abbrev pub put : ℕ → IpState → List IpState → List IpState
put i s' [] = []
put zero s' (s ∷ ss) = s' ∷ ss
put (suc i) s' (s ∷ ss) = s ∷ put i s' ss

abbrev pub write_back : List Slot → List IpState → List IpState
write_back [] ips = ips
write_back (slot ∷ slots) ips = write_back slots (put slot.0 slot.1 ips)

abbrev pub finish : ℕ → Option Slot × IpPool → Option IpEntry × IpPool
finish now (none, p) = (none, p)
finish now (some slot, p) =
    (some slot.1.entry, record p { ips = put slot.0 (use_state now slot.1) p.ips })

-- `selectIp`: the rate limits that have expired are cleared in the pool itself.
unfoldable pub select_ip : ℕ → (ℕ → ℕ) → Option String → IpPool → Option IpEntry × IpPool
unfolding select_by_strategy
select_ip now chosen provider p =
    let candidates = refresh_all now (get_candidates provider (slots_from 0 p.ips)) in
    finish now (
      select_by_strategy chosen (usable candidates)
        (record p { ips = write_back candidates p.ips }))

-- The first state with the address, changed.
abbrev pub change_at : String → (IpState → IpState) → List IpState → List IpState
change_at address f [] = []
change_at address f (s ∷ ss) =
    if str_eq s.entry.address address then f s ∷ ss else s ∷ change_at address f ss

unfoldable pub mark_rate_limited : ℕ → String → ℕ → IpPool → IpPool
mark_rate_limited now address duration p = record p {
  ips =
      change_at address (λ s. record s { rate_limited = true; rate_limited_until = now + duration })
        p.ips;
}

unfoldable pub clear_rate_limit : String → IpPool → IpPool
clear_rate_limit address p = record p {
  ips = change_at address (λ s. record s { rate_limited = false; rate_limited_until = 0 }) p.ips;
}
