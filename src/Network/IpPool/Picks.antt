-- ===== src/Network/IpPool/Picks.antt =====
-- Every strategy of src/network/ip-pool.ts selects one of the addresses it is given.
use prism_pipe.Prelude.{
  ℕ, zero, suc, ◌-◌, ◌%◌, ◌<◌, ◌≡◌, ◌≢◌, ◌⊎◌, inl, inr, refl, Bool, true, false, Option, none, some,
  List, [], ◌∷◌, ltb, ◌==◌, if◌then◌else◌, length, arith, Bool-cases,
}
use prism_pipe.Network.IpPool.{
  IpPool, SelectionStrategy, round_robin, random, least_recently_used, weighted_round_robin, Slot,
  get_elem?, oldest_of, weight_of, total_weight, turn_of, or_first, by_strategy, select_by_strategy,
}

abbrev pub In : Slot → List Slot → Type 0
In slot [] = ⊥
In slot (s ∷ ss) = (slot ≡ s) ⊎ In slot ss

-- `Math.random` is below 1: what it selects is a position of the list.
abbrev pub IsRandom : (ℕ → ℕ) → Type 0
IsRandom chosen = (n : ℕ) → 0 < n → chosen n < n

-- One of the slots was picked.
abbrev pub Picks : List Slot → Option Slot → Type 0
Picks slots o = (slot : Slot) × (o ≡ some slot) × In slot slots

get_elem?-Picks : (slots : List Slot) (i : ℕ) → i < length slots → Picks slots (get_elem? slots i)
get_elem?-Picks [] i lt = absurd (omega arith)
get_elem?-Picks (s ∷ ss) zero lt = (s, refl, inl refl)
get_elem?-Picks (s ∷ ss) (suc i) lt =
    let (slot, found, member) = get_elem?-Picks ss i (omega (arith, lt)) in
    (slot, found, inr member)

oldest_of_either :
    (b : Bool) (s t : Slot) (ts : List Slot)
    → In (oldest_of t ts) (t ∷ ts)
    → In (oldest_of s ts) (s ∷ ts)
    → In (oldest_of (if b then t else s) ts) (s ∷ t ∷ ts)
oldest_of_either true s t ts m n = inr m
oldest_of_either false s t ts m (inl e) = inl e
oldest_of_either false s t ts m (inr n) = inr (inr n)

oldest_of-In : (s : Slot) (ss : List Slot) → In (oldest_of s ss) (s ∷ ss)
oldest_of-In s [] = inl refl
oldest_of-In s (t ∷ ts) =
    oldest_of_either (ltb t.1.last_used_at s.1.last_used_at) s t ts (oldest_of-In t ts)
      (oldest_of-In s ts)

turn_of-In : (r : ℕ) (slots : List Slot) → (turn_of r slots ≡ none) ⊎ Picks slots (turn_of r slots)
unfolding turn_of
turn_of-In r [] = inl refl
turn_of-In r (s ∷ ss) = elim (Bool-cases (ltb r (weight_of s))) [
  | inl here ↦ rw here (inr (s, refl, inl refl))
  | inr later ↦ rw later (elim (turn_of-In (r - weight_of s) ss) [
    | inl missing ↦ inl missing
    | inr (slot, found, member) ↦ inr (slot, found, inr member)
  ])
]

or_first-Picks :
    (s : Slot) (ss : List Slot) (o : Option Slot)
    → (o ≡ none) ⊎ Picks (s ∷ ss) o
    → Picks (s ∷ ss) (some (or_first o s))
or_first-Picks s ss none h = (s, refl, inl refl)
or_first-Picks s ss (some t) (inl e) = absurd (ground arith)
or_first-Picks s ss (some t) (inr (slot, same, member)) = (slot, same, member)

by_strategy-Picks :
    (chosen : ℕ → ℕ) (s : Slot) (ss : List Slot) (p : IpPool) (kind : SelectionStrategy)
    → p.strategy ≡ kind
    → IsRandom chosen
    → Picks (s ∷ ss) (by_strategy chosen s ss p).0
by_strategy-Picks chosen s ss p round_robin e lt =
    rw (e, by_strategy)
      (get_elem?-Picks (s ∷ ss) (p.round_robin_index % length (s ∷ ss)) (omega arith))
by_strategy-Picks chosen s ss p random e lt =
    rw (e, by_strategy)
      (get_elem?-Picks (s ∷ ss) (chosen (length (s ∷ ss))) (lt (length (s ∷ ss)) (omega arith)))
by_strategy-Picks chosen s ss p least_recently_used e lt =
    rw (e, by_strategy) (oldest_of s ss, refl, oldest_of-In s ss)
by_strategy-Picks chosen s ss p weighted_round_robin e lt =
    elim (Bool-cases (total_weight (s ∷ ss) == 0)) [
      | inl weightless ↦ rw (e, by_strategy, weightless) (s, refl, inl refl)
      | inr weighted ↦
          rw (e, by_strategy, weighted)
            (or_first-Picks s ss _
              (turn_of-In (p.weighted_counter % total_weight (s ∷ ss)) (s ∷ ss)))
    ]

pub select_by_strategy-Picks :
    (chosen : ℕ → ℕ) (slots : List Slot) (p : IpPool)
    → slots ≢ []
    → IsRandom chosen
    → Picks slots (select_by_strategy chosen slots p).0
unfolding select_by_strategy
select_by_strategy-Picks chosen [] p some_slot lt = absurd (some_slot refl)
select_by_strategy-Picks chosen (s ∷ []) p some_slot lt = (s, refl, inl refl)
select_by_strategy-Picks chosen (s ∷ t ∷ ss) p some_slot lt =
    by_strategy-Picks chosen s (t ∷ ss) p p.strategy refl lt
