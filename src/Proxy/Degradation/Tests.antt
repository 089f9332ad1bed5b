-- ===== src/Proxy/Degradation/Tests.antt =====
-- Runs of the feature degradation, and its theorems at concrete requests.
use prism_pipe.Prelude.{ℕ, ◌≡◌, refl, false, none, some, String, [], ◌∷◌}
use prism_pipe.Core.Canonical.{
  text, url, image, thinking, plain, blocks, user, assistant, CanonicalRequest,
  ProviderCapabilities,
}
use prism_pipe.Proxy.Degradation.{is_image, is_thinking, degrade_features}
use prism_pipe.Proxy.Degradation.Supported.{
  Without, degrade_features-Without, degrade_features-loses_tools,
}

abbrev nothing : ProviderCapabilities
nothing = record {
  supports_tools = false;
  supports_vision = false;
  supports_streaming = false;
  supports_thinking = false;
  supports_system_prompt = false;
  max_context_tokens = none;
}

abbrev asked : CanonicalRequest ℕ
asked = record {
  model = "m";
  messages =
      record { role = user; content = blocks (image (url "a.png") ∷ text "what?" ∷ []) }
      ∷ record { role = assistant; content = blocks (thinking "hm" ∷ text "a cat" ∷ []) }
      ∷ [];
  system_prompt = some "Be brief.";
  tools = some (record { name = "zoom"; description = "zooms"; input_schema = 0 } ∷ []);
  temperature = none;
  max_tokens = none;
  top_p = none;
  stop_sequences = none;
  stream = none;
  provider_extensions = none;
  extras = none;
}

abbrev json : ℕ → String
json n = "{}"

reduced :
    (degrade_features json nothing asked).messages
    ≡ record { role = user; content = plain "System instructions: Be brief." }
      ∷ record { role = user; content = blocks (text "what?" ∷ []) }
      ∷ record { role = assistant; content = blocks (text "a cat" ∷ []) }
      ∷ []
unfolding degrade_features
reduced = refl

degrade_features-Without_example :
    (false ≡ false → (degrade_features json nothing asked).tools ≡ none)
    × (false ≡ false → Without is_image (degrade_features json nothing asked).messages)
    × (false ≡ false → Without is_thinking (degrade_features json nothing asked).messages)
degrade_features-Without_example = degrade_features-Without json nothing asked

degrade_features-loses_tools_example :
    degrade_features json nothing asked
    ≡ degrade_features json nothing (record asked { tools = none })
degrade_features-loses_tools_example =
    degrade_features-loses_tools json nothing asked "Be brief." refl refl refl
