-- ===== src/Proxy/Degradation/Supported.antt =====
-- What is left in a request after `degradeFeatures` of src/proxy/feature-degradation.ts.
use prism_pipe.Prelude.{
  ◌≡◌, refl, sym, subst, ◌∙◌, Bool, false, not, ◌||◌, none, some, String, List, [], ◌∷◌, filter,
  any, arith, Bool-cases, Option-cases, inl, inr,
}
use prism_pipe.Core.Canonical.{
  ContentBlock, Content, plain, blocks, CanonicalMessage, CanonicalRequest, ProviderCapabilities,
}
use prism_pipe.Compose.Chain.{present}
use prism_pipe.Proxy.Degradation.{
  is_image, is_thinking, strip_images, strip_thinking, has_thinking, any_thinking, on_content,
  degrade_tools, degrade_vision, degrade_thinking, degrade_system_prompt, degrade_features,
}

module _ {J : Type 0} where
  abbrev pub Free : (ContentBlock J → Bool) → Content J → Type 0
  Free f (plain t) = Unit
  Free f (blocks bs) = any f bs ≡ false

  -- No message has a block of the kind.
  abbrev pub Without : (ContentBlock J → Bool) → List (CanonicalMessage J) → Type 0
  Without f [] = Unit
  Without f (m ∷ ms) = Free f m.content × Without f ms

  any-filter :
      (f g : ContentBlock J → Bool) (bs : List (ContentBlock J))
      → any f bs ≡ false
      → any f (filter g bs) ≡ false
  any-filter f g [] e = refl
  any-filter f g (b ∷ bs) e = ground (arith, any-filter f g bs)

  any-filter-not :
      (f : ContentBlock J → Bool) (bs : List (ContentBlock J))
      → any f (filter (λ b. not (f b)) bs) ≡ false
  any-filter-not f [] = refl
  any-filter-not f (b ∷ bs) = ground (arith, any-filter-not f bs)

  strip_images-keeps :
      (f : ContentBlock J → Bool) (c : Content J) → Free f c → Free f (strip_images c)
  strip_images-keeps f (plain t) h = tt
  strip_images-keeps f (blocks bs) h = elim (Bool-cases (any is_image bs)) [
    | inl some_image ↦ rw (some_image, Free) (any-filter f (λ b. not (is_image b)) bs h)
    | inr no_image ↦ rw (no_image, Free) h
  ]

  strip_images-Free : (c : Content J) → Free is_image (strip_images c)
  strip_images-Free (plain t) = tt
  strip_images-Free (blocks bs) = elim (Bool-cases (any is_image bs)) [
    | inl some_image ↦ rw (some_image, Free) (any-filter-not is_image bs)
    | inr no_image ↦ rw (no_image, Free) no_image
  ]

  strip_thinking-keeps :
      (f : ContentBlock J → Bool) (c : Content J) → Free f c → Free f (strip_thinking c)
  strip_thinking-keeps f (plain t) h = tt
  strip_thinking-keeps f (blocks bs) h = any-filter f (λ b. not (is_thinking b)) bs h

  strip_thinking-Free : (c : Content J) → Free is_thinking (strip_thinking c)
  strip_thinking-Free (plain t) = tt
  strip_thinking-Free (blocks bs) = any-filter-not is_thinking bs

  on_content-keeps :
      (f : ContentBlock J → Bool) (strip : Content J → Content J)
      → ((c : Content J) → Free f c → Free f (strip c))
      → (ms : List (CanonicalMessage J)) → Without f ms
      → Without f (on_content strip ms)
  on_content-keeps f strip h [] w = tt
  on_content-keeps f strip h (m ∷ ms) w = (h m.content w.0, on_content-keeps f strip h ms w.1)

  on_content-Without :
      (f : ContentBlock J → Bool) (strip : Content J → Content J)
      → ((c : Content J) → Free f (strip c))
      → (ms : List (CanonicalMessage J)) → Without f (on_content strip ms)
  on_content-Without f strip h [] = tt
  on_content-Without f strip h (m ∷ ms) = (h m.content, on_content-Without f strip h ms)

  has_thinking-Free : (c : Content J) → has_thinking c ≡ false → Free is_thinking c
  has_thinking-Free (plain t) e = tt
  has_thinking-Free (blocks bs) e = e

  any_thinking-Without :
      (ms : List (CanonicalMessage J)) → any_thinking ms ≡ false → Without is_thinking ms
  any_thinking-Without [] e = tt
  any_thinking-Without (m ∷ ms) e =
      (has_thinking-Free m.content (ground arith), any_thinking-Without ms (ground arith))

  -- The system prompt part keeps the tools and adds a message that is a text.
  degrade_system_prompt-keeps :
      (f : ContentBlock J → Bool) (caps : ProviderCapabilities) (req d : CanonicalRequest J)
      → ((degrade_system_prompt caps req d).tools ≡ d.tools)
        × (Without f d.messages → Without f (degrade_system_prompt caps req d).messages)
  degrade_system_prompt-keeps f caps req d = elim (Option-cases (present req.system_prompt)) [
    | inl absent ↦ rw (absent, degrade_system_prompt) (refl, λ w. w)
    | inr (prompt, given) ↦ elim (Bool-cases caps.supports_system_prompt) [
      | inl supported ↦ rw (given, degrade_system_prompt, supported) (refl, λ w. w)
      | inr unsupported ↦ rw (given, degrade_system_prompt, unsupported) (refl, λ w. (tt, w))
    ]
  ]

  degrade_thinking-keeps :
      (f : ContentBlock J → Bool) (caps : ProviderCapabilities) (req d : CanonicalRequest J)
      → ((degrade_thinking caps req d).tools ≡ d.tools)
        × (Without f d.messages → Without f (degrade_thinking caps req d).messages)
  degrade_thinking-keeps f caps req d =
      elim (Bool-cases (caps.supports_thinking || not (any_thinking req.messages))) [
        | inl kept ↦ rw (kept, degrade_thinking) (refl, λ w. w)
        | inr stripped ↦
            rw (stripped, degrade_thinking)
              (refl, λ w. on_content-keeps f strip_thinking (strip_thinking-keeps f) d.messages w)
      ]

  degrade_thinking-Without :
      (caps : ProviderCapabilities) (req d : CanonicalRequest J)
      → caps.supports_thinking ≡ false
      → (any_thinking req.messages ≡ false → Without is_thinking d.messages)
      → Without is_thinking (degrade_thinking caps req d).messages
  degrade_thinking-Without caps req d unsupported h =
      elim (Bool-cases (caps.supports_thinking || not (any_thinking req.messages))) [
        | inl kept ↦ rw (kept, degrade_thinking) (h (ground arith))
        | inr stripped ↦
            rw (stripped, degrade_thinking)
              (on_content-Without is_thinking strip_thinking strip_thinking-Free d.messages)
      ]

  degrade_vision-keeps :
      (f : ContentBlock J → Bool) (caps : ProviderCapabilities) (d : CanonicalRequest J)
      → ((degrade_vision caps d).tools ≡ d.tools)
        × (Without f d.messages → Without f (degrade_vision caps d).messages)
        × (caps.supports_vision ≡ false → Without is_image (degrade_vision caps d).messages)
  degrade_vision-keeps f caps d = elim (Bool-cases caps.supports_vision) [
    | inl supported ↦ rw (supported, degrade_vision) (refl, λ w. w, λ e. absurd (ground arith))
    | inr unsupported ↦
        rw (unsupported, degrade_vision)
          (
            refl,
            λ w. on_content-keeps f strip_images (strip_images-keeps f) d.messages w,
            λ e. on_content-Without is_image strip_images strip_images-Free d.messages,
          )
  ]

  degrade_tools-keeps :
      (stringify : J → String) (caps : ProviderCapabilities) (req : CanonicalRequest J)
      → ((degrade_tools stringify caps req req).messages ≡ req.messages)
        × (caps.supports_tools ≡ false → (degrade_tools stringify caps req req).tools ≡ none)
  degrade_tools-keeps stringify caps req = elim (Option-cases req.tools) [
    | inl absent ↦ (ground arith, λ e. ground arith)
    | inr (ts, given) ↦ (ground arith, λ e. ground arith)
  ]

-- A request that is degraded for a provider has no tools, no image block or no thinking block in a
-- message where the provider does not support them. Blocks inside a tool result are not counted.
pub degrade_features-Without :
    {J : Type 0} (stringify : J → String) (caps : ProviderCapabilities) (req : CanonicalRequest J)
    → (caps.supports_tools ≡ false → (degrade_features stringify caps req).tools ≡ none)
      × (caps.supports_vision ≡ false
          → Without is_image (degrade_features stringify caps req).messages)
      × (caps.supports_thinking ≡ false
          → Without is_thinking (degrade_features stringify caps req).messages)
unfolding degrade_features
degrade_features-Without stringify caps req =
    let first = degrade_tools stringify caps req req in
    let second = degrade_vision caps first in
    let third = degrade_thinking caps req second in
    let tools = degrade_tools-keeps stringify caps req in
    (
      λ no_tools.
          (degrade_system_prompt-keeps is_image caps req third).0
          ∙ (degrade_thinking-keeps is_image caps req second).0
          ∙ (degrade_vision-keeps is_image caps first).0
          ∙ tools.1 no_tools,
      λ no_vision. (degrade_system_prompt-keeps is_image caps req third).1 (
          (degrade_thinking-keeps is_image caps req second).1
            ((degrade_vision-keeps is_image caps first).2 no_vision)),
      λ no_thinking. (degrade_system_prompt-keeps is_thinking caps req third).1 (
          degrade_thinking-Without caps req second no_thinking (λ none_there.
            (degrade_vision-keeps is_thinking caps first).1 (
              subst (Without is_thinking) (sym tools.0)
                (any_thinking-Without req.messages none_there)))),
    )

-- A request with a system prompt, for a provider that supports neither tools nor system prompts, is
-- degraded to the same request whether it has tools or not: their description is lost.
pub degrade_features-loses_tools :
    {J : Type 0} (stringify : J → String) (caps : ProviderCapabilities) (req : CanonicalRequest J)
    (prompt : String)
    → caps.supports_tools ≡ false
    → caps.supports_system_prompt ≡ false
    → present req.system_prompt ≡ some prompt
    → degrade_features stringify caps req
      ≡ degrade_features stringify caps (record req { tools = none })
unfolding degrade_features
degrade_features-loses_tools stringify caps req prompt no_tools no_prompt given =
    elim (Option-cases req.tools) [
      | inl absent ↦ ground arith
      | inr (ts, tools) ↦ elim (Bool-cases caps.supports_vision) [
        | inl vision ↦ ground arith
        | inr no_vision ↦ ground arith
      ]
    ]
