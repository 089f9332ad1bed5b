-- ===== src/Fallback/Keeps.antt =====
-- A rule for the runs of src/fallback/chain.ts: what every event of a run keeps, the run keeps.
use prism_pipe.Prelude.{
  ℕ, zero, suc, ◌+◌, ◌≡◌, ◌<◌, true, List, [], ◌∷◌, String, refl, inl, inr, ◌⊎◌,
}
use prism_pipe.Core.Errors.{Thrown}
use prism_pipe.Fallback.{
  succeeded, skipped, threw, Env, FallbackChainOptions, Run, log, to_pipeline_error, Attempts, done,
  give_up, max_retries_of, check_breaker, breaker_success, note_error, back_off, attempts,
  try_providers, finish, start, execute_fallback_chain,
}
use prism_pipe.Fallback.Cases.{timed, InTime, attempts_cases, try_providers_cases}

module _ {R : Type 0} (env : Env R) (opts : FallbackChainOptions) where
  -- `P` is kept by each event; providers that the breakers let through satisfy `Q`.
  pub record Keeps {ℓ κ} (P : Run → Type ℓ) (Q : String → Type κ) : Type (ℓ ⊔ κ) where
    pub time : (s : Run) → P s → P (timed env opts s)
    pub success :
        (s : Run) (name : String)
        → Q name
        → InTime env opts s
        → P (timed env opts s)
        → P (breaker_success env opts name (log (succeeded name) (timed env opts s)))
    pub failure :
        (s : Run) (name : String) (t : Thrown)
        → Q name
        → InTime env opts s
        → env.call (timed env opts s).history name ≡ threw t
        → P (timed env opts s)
        → P (note_error env opts name (to_pipeline_error name t) (timed env opts s))
    pub rest : (s : Run) (attempt : ℕ) → P s → P (back_off env opts attempt s)
    pub ask : (s : Run) (name : String) → P s → P (check_breaker env opts name s).0
    pub let_in : (s : Run) (name : String) → P s → (check_breaker env opts name s).1 ≡ true → Q name
    pub skip : (s : Run) (name : String) → P s → P (log (skipped name) s)

  module _ {ℓ κ} {P : Run → Type ℓ} {Q : String → Type κ} (k : Keeps P Q) where
    keep_rested :
        (left attempt : ℕ) (noted rested : Run)
        → ((left ≡ 0) × (rested ≡ noted))
          ⊎ ((0 < left) × (rested ≡ back_off env opts attempt noted))
        → P noted
        → P rested
    keep_rested left attempt noted rested (inl (z, e)) p = rw e p
    keep_rested left attempt noted rested (inr (z, e)) p = rw e (k.rest noted attempt p)

    pub attempts-Keeps :
        (left attempt : ℕ) (name : String) (s : Run)
        → Q name
        → P s
        → P (attempts env opts left attempt name s).1
    unfolding attempts
    attempts-Keeps zero attempt name s q p = p
    attempts-Keeps (suc left) attempt name s q p =
        attempts_cases env opts (λ out. P out.1) left attempt name s (k.time s p)
          (λ r early _. k.success s name q early (k.time s p))
          (λ t early e _. k.failure s name t q early e (k.time s p))
          (λ t noted rested early e _ same c. attempts-Keeps left (attempt + 1) name rested q (
            keep_rested left attempt noted rested c
              (rw same (k.failure s name t q early e (k.time s p)))))

    pub try_providers-Keeps :
        (names : List String) (s : Run) → P s → P (try_providers env opts names s).1
    unfolding try_providers
    try_providers-Keeps [] s p = p
    try_providers-Keeps (name ∷ names) s p =
        let asked = check_breaker env opts name (timed env opts s) in
        let here : P asked.0 = k.ask (timed env opts s) name (k.time s p) in
        let tried : asked.1 ≡ true
            → P (attempts env opts (max_retries_of env opts + 1) 0 name asked.0).1 =
          λ a.
            attempts-Keeps (max_retries_of env opts + 1) 0 name asked.0
              (k.let_in (timed env opts s) name (k.time s p) a) here in
        try_providers_cases env opts (λ out. P out.1) name names s (λ _. k.time s p)
          (λ _ _. try_providers-Keeps names _ (k.skip asked.0 name here)) (λ r _ a _. tried a)
          (λ _ a _. try_providers-Keeps names _ (tried a))

    finish-history : (out : Attempts R × Run) → (finish out).1 ≡ out.1
    unfolding finish
    finish-history (done r, s) = refl
    finish-history (give_up, s) = refl

    pub execute-Keeps : P (start env opts) → P (execute_fallback_chain env opts).1
    unfolding execute_fallback_chain
    execute-Keeps p =
        rw (finish-history (try_providers env opts opts.providers (start env opts)))
          (try_providers-Keeps opts.providers (start env opts) p)
