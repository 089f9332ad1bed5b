-- ===== src/Compose/Template/Tests.antt =====
-- A run of the template engine, and its theorem at a concrete template.
use prism_pipe.Prelude.{
  ℕ, ◌≡◌, refl, none, some, List, [], ◌∷◌, strip, take_until, drop_until, trim, trim_start,
  trim_end, lookup,
}
use prism_pipe.Core.Canonical.{user, assistant, plain, CanonicalRequest}
use prism_pipe.Compose.Chain.{TemplateContext, StepResult, success}
use prism_pipe.Compose.Template.{resolve_ref, resolve_template}
use prism_pipe.Compose.Template.Pieces.{
  Piece, literal, reference, resolved, resolve_template-written,
}

abbrev asked : CanonicalRequest ℕ
asked = record {
  model = "m";
  messages =
      record { role = user; content = plain "hello" }
      ∷ record { role = assistant; content = plain "hi" }
      ∷ [];
  system_prompt = none;
  tools = none;
  temperature = none;
  max_tokens = none;
  top_p = none;
  stop_sequences = none;
  stream = none;
  provider_extensions = none;
  extras = none;
}

abbrev draft : StepResult
draft = record {
  name = "draft";
  provider = "openai";
  content = "a poem";
  duration_ms = 3;
  status = success;
  message = none;
}

abbrev known : TemplateContext ℕ
known = record { original = asked; steps = ("draft", draft) ∷ []; previous = some draft }

resolves :
    resolve_template "On {{ original.lastUserMessage }}: {{steps.draft.content}} {{steps.x.y}} {{}}"
      known
    ≡ "On hello: a poem {{steps.x.y}} {{}}"
unfolding resolve_template strip take_until drop_until trim_start trim_end lookup
resolves = refl

abbrev pieces : List Piece
pieces = literal "Improve: " ∷ reference " steps.draft.content " ∷ literal "!" ∷ []

resolve_template-written_example :
    resolve_template "Improve: {{ steps.draft.content }}!" known
    ≡ resolved (λ ref. resolve_ref known (trim ref)) pieces
unfolding take_until
resolve_template-written_example =
    resolve_template-written known pieces (refl, ((refl, refl), (refl, tt)))
