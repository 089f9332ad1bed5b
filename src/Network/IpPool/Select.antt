-- ===== src/Network/IpPool/Select.antt =====
-- What `selectIp` of src/network/ip-pool.ts selects.
use prism_pipe.Prelude.{
  ℕ, ◌↔◌, ◌≡◌, ◌≢◌, inl, inr, refl, sym, ◌∙◌, ap, subst, not, Option, none, some, String, List, [],
  ◌∷◌, arith,
}
use prism_pipe.Network.IpPool.{
  IpEntry, IpPool, Slot, slots_from, get_candidates, refresh_all, healthy, usable,
  select_by_strategy, finish, select_ip,
}
use prism_pipe.Network.IpPool.Picks.{In, IsRandom, select_by_strategy-Picks}
use prism_pipe.Network.IpPool.Members.{
  Serves, Free, in_turn, refresh_lem, In-keep, In-get_candidates, In-refresh_all, refresh_all-In,
  In-ne, In-usable, usable_some,
}

finish-entry :
    (now : ℕ) (o : Option Slot) (p : IpPool) (slot : Slot)
    → o ≡ some slot
    → (finish now (o, p)).0 ≡ some slot.1.entry
finish-entry now o p slot e = rw (e, finish) refl

-- An address of the pool that serves the provider is selected, and one that may be used now if the
-- slot `other` may.
pub record Selects (now : ℕ) (provider : Option String) (p : IpPool) (other : Slot)
    (entry : Option IpEntry) : Type 0 where
  pub slot : Slot
  pub selected : entry ≡ some slot.1.entry
  pub member : In slot (slots_from 0 p.ips)
  pub serving : Serves provider slot.1.entry
  pub usable_now : Free now other.1 → Free now slot.1

selected-Selects :
    (now : ℕ) (chosen : ℕ → ℕ) (provider : Option String) (p q : IpPool) (other : Slot)
    → IsRandom chosen
    → In other (slots_from 0 p.ips)
    → Serves provider other.1.entry
    → Selects now provider p other
        (finish now (
          select_by_strategy chosen
            (usable (refresh_all now (get_candidates provider (slots_from 0 p.ips))))
            q)).0
selected-Selects now chosen provider p q other lt m serving =
    let all = slots_from 0 p.ips in
    let offered = get_candidates provider all in
    let c = refresh_all now offered in
    let there =
      refresh_all-In now offered other ((In-get_candidates provider all other).1 (m, serving)) in
    let (picked, same, tried) =
      select_by_strategy-Picks chosen (usable c) q
        (usable_some c (In-ne c (in_turn now other) there)) lt in
    let (candidate, health) = In-usable c picked tried in
    let (old, kept, refreshed) = In-refresh_all now offered picked candidate in
    let (member, serves_it) = (In-get_candidates provider all old).0 kept in
    let facts = refresh_lem now old.1 in
    record {
      slot = old;
      selected =
          finish-entry now (select_by_strategy chosen (usable c) q).0
            (select_by_strategy chosen (usable c) q).1 picked same
          ∙ ap some (ap (λ (x : Slot). x.1.entry) refreshed ∙ facts.0);
      member = member;
      serving = serves_it;
      usable_now = λ free. elim health [
        | inl fresh ↦ facts.2 (sym (ap (λ (x : Slot). x.1.rate_limited) refreshed) ∙ fresh)
        | inr nobody ↦ absurd (
            In-ne (healthy c) (in_turn now other)
              (In-keep (λ (x : Slot). not x.1.rate_limited) c (in_turn now other) there
                (ap not ((refresh_lem now other.1).1 free)))
              nobody)
      ];
    }

none_offered :
    (now : ℕ) (provider : Option String) (slots : List Slot)
    → ((slot : Slot) → In slot slots → ¬ Serves provider slot.1.entry)
    → get_candidates provider slots ≡ []
none_offered now provider slots none_serves = by_offer (get_candidates provider slots) refl
  where
    by_offer :
        (c : List Slot) → get_candidates provider slots ≡ c → get_candidates provider slots ≡ []
    by_offer [] e = e
    by_offer (s ∷ ss) e =
        let (m, serving) =
          (In-get_candidates provider slots s).0 (subst (λ xs. In s xs) (sym e) (inl refl)) in
        absurd (none_serves s m serving)

-- If an address of the pool serves the provider, then one that serves it is selected; and if that
-- address is not rate-limited, or its time is up, so it is with the selected one. `Math.random` is
-- below 1.
pub select_ip_lem :
    (now : ℕ) (chosen : ℕ → ℕ) (provider : Option String) (p : IpPool) (other : Slot)
    → IsRandom chosen
    → In other (slots_from 0 p.ips)
    → Serves provider other.1.entry
    → Selects now provider p other (select_ip now chosen provider p).0
unfolding select_ip
select_ip_lem now chosen provider p other lt m serving =
    selected-Selects now chosen provider p _ other lt m serving

-- No address is selected exactly if no address of the pool serves the provider. `Math.random` is
-- below 1.
pub select_ip-none_iff :
    (now : ℕ) (chosen : ℕ → ℕ) (provider : Option String) (p : IpPool)
    → IsRandom chosen
    → ((select_ip now chosen provider p).0 ≡ none)
      ↔ ((slot : Slot) → In slot (slots_from 0 p.ips) → ¬ Serves provider slot.1.entry)
unfolding select_ip select_by_strategy
select_ip-none_iff now chosen provider p lt = (
  λ e slot m serving.
      let found = select_ip_lem now chosen provider p slot lt m serving in
      absurd (none_some (sym e ∙ found.selected)),
  λ none_serves. rw (none_offered now provider (slots_from 0 p.ips) none_serves) refl,
)
  where
    none_some : {e : IpEntry} → none ≢ some e
    none_some = ground arith
