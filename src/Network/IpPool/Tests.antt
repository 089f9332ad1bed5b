-- ===== src/Network/IpPool/Tests.antt =====
-- Runs of the address pool, and its theorems at a concrete pool.
use prism_pipe.Prelude.{ℕ, ◌≡◌, ◌↔◌, inl, inr, refl, none, some, String, [], ◌∷◌}
use prism_pipe.Network.IpPool.{
  IpEntry, IpPool, new_state, weighted_round_robin, Slot, new, new_state, slots_from, turn_of,
  select_by_strategy, select_ip, mark_rate_limited, clear_rate_limit,
}
use prism_pipe.Network.IpPool.Picks.{In}
use prism_pipe.Network.IpPool.Members.{Serves}
use prism_pipe.Network.IpPool.Select.{Selects, select_ip_lem, select_ip-none_iff}

pool_runs : Unit {0}
unfolding new turn_of select_by_strategy select_ip mark_rate_limited clear_rate_limit
pool_runs = tt

abbrev ip : String → ℕ → IpEntry
ip address weight = record { address = address; weight = some weight; providers = none }

-- `Math.random` gives 0.
abbrev first_one : ℕ → ℕ
first_one n = 0

abbrev pool : IpPool
pool = new (ip "10.0.0.1" 2 ∷ ip "10.0.0.2" 1 ∷ []) (some weighted_round_robin)

third_turn :
    (select_ip 3 first_one none
      (select_ip 2 first_one none (select_ip 1 first_one none pool).1).1).0
    ≡ some (ip "10.0.0.2" 1)
unfolding pool_runs
third_turn = refl

limited :
    (select_ip 5 first_one none (mark_rate_limited 1 "10.0.0.1" 60000 pool)).0
    ≡ some (ip "10.0.0.2" 1)
unfolding pool_runs
limited = refl

abbrev second : Slot
second = (1, new_state (ip "10.0.0.2" 1))

select_ip_lem_example :
    Selects 5 (some "openai") pool second (select_ip 5 first_one (some "openai") pool).0
unfolding new
select_ip_lem_example =
    select_ip_lem 5 first_one (some "openai") pool second (λ n lt. lt) (inr (inl refl)) refl

select_ip-none_iff_example :
    ((select_ip 5 first_one (some "openai") pool).0 ≡ none)
    ↔ ((slot : Slot) → In slot (slots_from 0 pool.ips) → ¬ Serves (some "openai") slot.1.entry)
select_ip-none_iff_example = select_ip-none_iff 5 first_one (some "openai") pool (λ n lt. lt)
