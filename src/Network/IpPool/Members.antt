-- ===== src/Network/IpPool/Members.antt =====
-- Which addresses src/network/ip-pool.ts tries for a provider: the candidates, and the healthy ones
-- among them.
use prism_pipe.Prelude.{
  ℕ, ◌≤◌, ◌↔◌, ◌≡◌, ◌≢◌, ◌⊎◌, inl, inr, refl, sym, ◌∙◌, ap, subst, Bool, true, false, not, ◌||◌,
  Option, none, some, String, List, [], ◌∷◌, str_eq, if◌then◌else◌, filter, arith, Bool-cases,
}
use prism_pipe.Network.IpPool.{
  IpEntry, IpState, Slot, serves, get_candidates, refresh, refresh_all, healthy, usable,
}
use prism_pipe.Network.IpPool.Picks.{In}

In-kept :
    (f : Slot → Bool) (b : Bool) (s slot : Slot) (ss rest : List Slot)
    → f s ≡ b
    → (In slot rest → In slot ss × (f slot ≡ true))
    → In slot (if b then s ∷ rest else rest)
    → In slot (s ∷ ss) × (f slot ≡ true)
In-kept f true s slot ss rest e below (inl same) = (inl same, ap f same ∙ e)
In-kept f true s slot ss rest e below (inr m) = let (n, holds) = below m in (inr n, holds)
In-kept f false s slot ss rest e below m = let (n, holds) = below m in (inr n, holds)

In-filter :
    (f : Slot → Bool) (slots : List Slot) (slot : Slot)
    → In slot (filter f slots)
    → In slot slots × (f slot ≡ true)
In-filter f [] slot m = absurd m
In-filter f (s ∷ ss) slot m =
    In-kept f (f s) s slot ss (filter f ss) refl (λ n. In-filter f ss slot n) m

abbrev pub Serves : Option String → IpEntry → Type 0
Serves none entry = Unit
Serves (some provider) entry = str_eq provider "" || serves provider entry ≡ true

-- The address may be used now: it is not rate-limited, or no longer.
abbrev pub Free : ℕ → IpState → Type 0
Free now s = (s.rate_limited ≡ false) ⊎ (s.rate_limited_until ≤ now)

abbrev pub in_turn : ℕ → Slot → Slot
in_turn now slot = (slot.0, refresh now slot.1)

pub refresh_lem :
    (now : ℕ) (s : IpState)
    → ((refresh now s).entry ≡ s.entry)
      × (Free now s → (refresh now s).rate_limited ≡ false)
      × ((refresh now s).rate_limited ≡ false → Free now s)
refresh_lem now s = (ground arith, λ f. ground arith, λ e. ground arith)

pub In-keep :
    (f : Slot → Bool) (slots : List Slot) (slot : Slot)
    → In slot slots
    → f slot ≡ true
    → In slot (filter f slots)
In-keep f [] slot m e = m
In-keep f (s ∷ ss) slot (inl same) e = rw (ap f (sym same) ∙ e) (inl same)
In-keep f (s ∷ ss) slot (inr m) e = elim (Bool-cases (f s)) [
  | inl kept ↦ rw kept (inr (In-keep f ss slot m e))
  | inr left ↦ rw left (In-keep f ss slot m e)
]

-- The slots of a provider are those that serve it.
pub In-get_candidates :
    (provider : Option String) (slots : List Slot) (slot : Slot)
    → In slot (get_candidates provider slots) ↔ (In slot slots × Serves provider slot.1.entry)
In-get_candidates none slots slot = (λ m. (m, tt), λ m. m.0)
In-get_candidates (some provider) slots slot = elim (Bool-cases (str_eq provider "")) [
  | inl empty ↦ rw empty (λ m. (m, refl), λ m. m.0)
  | inr named ↦
      let keeps = λ (x : Slot). serves provider x.1.entry in
      rw named (λ m. In-filter keeps slots slot m, λ m. In-keep keeps slots slot m.0 m.1)
]

pub In-refresh_all :
    (now : ℕ) (slots : List Slot) (slot : Slot)
    → In slot (refresh_all now slots)
    → (old : Slot) × In old slots × (slot ≡ in_turn now old)
In-refresh_all now [] slot m = absurd m
In-refresh_all now (s ∷ ss) slot (inl e) = (s, inl refl, e)
In-refresh_all now (s ∷ ss) slot (inr m) =
    let (old, member, same) = In-refresh_all now ss slot m in (old, inr member, same)

pub refresh_all-In :
    (now : ℕ) (slots : List Slot) (old : Slot)
    → In old slots
    → In (in_turn now old) (refresh_all now slots)
refresh_all-In now [] old m = m
refresh_all-In now (s ∷ ss) old (inl e) = inl (ap (in_turn now) e)
refresh_all-In now (s ∷ ss) old (inr m) = inr (refresh_all-In now ss old m)

pub In-ne : (slots : List Slot) (slot : Slot) → In slot slots → slots ≢ []
In-ne [] slot m = absurd m
In-ne (s ∷ ss) slot m = ground arith

-- Which of the candidates are tried: the healthy ones if there are any.
pub In-usable :
    (c : List Slot) (slot : Slot)
    → In slot (usable c)
    → In slot c × ((slot.1.rate_limited ≡ false) ⊎ (healthy c ≡ []))
In-usable c slot m = by_health (healthy c) refl m
  where
    by_health :
        (h : List Slot)
        → healthy c ≡ h
        → In slot (elim h as (λ _. List Slot) [ [] ↦ c | s ∷ ss ↦ s ∷ ss ])
        → In slot c × ((slot.1.rate_limited ≡ false) ⊎ (healthy c ≡ []))
    by_health [] e n = (n, inr e)
    by_health (s ∷ ss) e n =
        let (member, ok) =
          In-filter (λ (x : Slot). not x.1.rate_limited) c slot
            (subst (λ xs. In slot xs) (sym e) n) in
        (member, inl (ground arith))

pub usable_some : (c : List Slot) → c ≢ [] → usable c ≢ []
usable_some c some_slot = by_health (healthy c)
  where
    by_health : (h : List Slot) → (elim h as (λ _. List Slot) [ [] ↦ c | s ∷ ss ↦ s ∷ ss ]) ≢ []
    by_health [] = some_slot
    by_health (s ∷ ss) = ground arith
