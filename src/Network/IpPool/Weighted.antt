-- ===== src/Network/IpPool/Weighted.antt =====
-- The strategy `weighted-round-robin` of src/network/ip-pool.ts.
use prism_pipe.Prelude.{
  ℕ, ◌+◌, ◌<◌, ◌≡◌, refl, some, List, [], ◌∷◌, ◌++◌, lt→ltb, le→ltb, arith, subst,
}
use prism_pipe.Network.IpPool.{Slot, weight_of, total_weight, turn_of}

total_weight-append :
    (xs ys : List Slot) → total_weight (xs ++ ys) ≡ total_weight xs + total_weight ys
total_weight-append [] ys = omega arith
total_weight-append (x ∷ xs) ys = omega (arith, total_weight-append xs ys)

turn_of-head :
    (r : ℕ) (s : Slot) (after : List Slot) → r < weight_of s → turn_of r (s ∷ after) ≡ some s
unfolding turn_of
turn_of-head r s after lt = rw (lt→ltb r (weight_of s) lt) refl

turn_of-share :
    (before : List Slot) (s : Slot) (after : List Slot) (r : ℕ)
    → r < weight_of s
    → turn_of (total_weight before + r) (before ++ (s ∷ after)) ≡ some s
unfolding turn_of
turn_of-share [] s after r lt =
    subst (λ n. turn_of n (s ∷ after) ≡ some s) {y = 0 + r} (omega arith)
      (turn_of-head r s after lt)
turn_of-share (b ∷ bs) s after r lt =
    rw (le→ltb (total_weight (b ∷ bs) + r) (weight_of b) (omega arith)) (
      subst (λ n. turn_of n (bs ++ (s ∷ after)) ≡ some s) (omega arith)
        (turn_of-share bs s after r lt))

-- In one cycle of as many turns as all weights together, an address is selected for exactly a run
-- of turns as long as its weight, which follows those of the addresses before it; and the turns of
-- all addresses fill the cycle.
pub turn_of_share :
    (before : List Slot) (s : Slot) (after : List Slot)
    → ((r : ℕ)
        → r < weight_of s
        → turn_of (total_weight before + r) (before ++ (s ∷ after)) ≡ some s)
      × (total_weight (before ++ (s ∷ after))
          ≡ total_weight before + weight_of s + total_weight after)
turn_of_share before s after =
    (turn_of-share before s after, omega (arith, total_weight-append before (s ∷ after)))
