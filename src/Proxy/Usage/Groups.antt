-- ===== src/Proxy/Usage/Groups.antt =====
-- What src/proxy/usage-grouping.ts puts into each group.
use mathlib.Core.List.{append_assoc, append-nil}
use prism_pipe.Prelude.{
  ◌≡◌, refl, sym, ap, ◌∙◌, Option, none, some, String, List, [], ◌∷◌, ◌++◌, str_eq, Map, lookup,
  lookup-insert, filter, if◌then◌else◌, eq_iff, Bool-cases, inl, inr,
}
use prism_pipe.Proxy.Json.{◌>>=◌}
use prism_pipe.Proxy.Usage.{
  UsageLogEntry, bucket_with, put, group_from, map_groups, group_usage_by_model,
  group_usage_by_dimension,
}

-- A bucket that these entries are added to.
abbrev added : Option (List UsageLogEntry) → List UsageLogEntry → Option (List UsageLogEntry)
added none [] = none
added none (e ∷ es) = some (e ∷ es)
added (some bucket) es = some (bucket ++ es)

-- The entries of a key, if there are any.
abbrev pub of_key : (UsageLogEntry → String) → String → List UsageLogEntry → List UsageLogEntry
of_key pick_key key entries = filter (λ e. str_eq key (pick_key e)) entries

abbrev pub summed : {S : Type 0} → (List UsageLogEntry → S) → List UsageLogEntry → Option S
summed f [] = none
summed f (e ∷ es) = some (f (e ∷ es))

added-bucket_with :
    (b : Option (List UsageLogEntry)) (e : UsageLogEntry) (es : List UsageLogEntry)
    → added (some (bucket_with b e)) es ≡ added b (e ∷ es)
added-bucket_with none e es = refl
added-bucket_with (some bucket) e es = ap (λ xs. some xs) (append_assoc bucket (e ∷ []) es)

added-nil : (b : Option (List UsageLogEntry)) → added b [] ≡ b
added-nil none = refl
added-nil (some bucket) = ap (λ xs. some xs) (append-nil bucket)

lookup-put :
    (pick_key : UsageLogEntry → String) (key : String) (e : UsageLogEntry)
    (grouped : Map (List UsageLogEntry))
    → lookup key (put pick_key e grouped) ≡ (
        if str_eq key (pick_key e)
        then some (bucket_with (lookup key grouped) e)
        else lookup key grouped)
unfolding put
lookup-put pick_key key e grouped =
    lookup-insert grouped (pick_key e) key (bucket_with (lookup (pick_key e) grouped) e)
    ∙ (elim (Bool-cases (str_eq key (pick_key e))) [
      | inl same ↦
          let same' : key ≡ pick_key e = (eq_iff key (pick_key e)).0 same in
          rw same (ap (λ k. some (bucket_with (lookup k grouped) e)) (sym same'))
      | inr other ↦ rw other refl
    ])

lookup-group_from :
    (pick_key : UsageLogEntry → String) (key : String) (entries : List UsageLogEntry)
    (grouped : Map (List UsageLogEntry))
    → lookup key (group_from pick_key entries grouped)
      ≡ added (lookup key grouped) (of_key pick_key key entries)
unfolding group_from
lookup-group_from pick_key key [] grouped = sym (added-nil (lookup key grouped))
lookup-group_from pick_key key (e ∷ es) grouped =
    lookup-group_from pick_key key es (put pick_key e grouped)
    ∙ ap (λ b. added b (of_key pick_key key es)) (lookup-put pick_key key e grouped)
    ∙ (elim (Bool-cases (str_eq key (pick_key e))) [
      | inl same ↦ rw same (added-bucket_with (lookup key grouped) e (of_key pick_key key es))
      | inr other ↦ rw other refl
    ])

abbrev mapped {ℓ κ} : {A : Type ℓ} {B : Type κ} → (A → B) → Option A → Option B
mapped f none = none
mapped f (some a) = some (f a)

lookup-map_groups :
    {A : Type 0} (f : List UsageLogEntry → A) (key : String) (grouped : Map (List UsageLogEntry))
    → lookup key (map_groups f grouped) ≡ mapped f (lookup key grouped)
unfolding lookup map_groups
lookup-map_groups f key [] = refl
lookup-map_groups f key ((k, group) ∷ rest) = elim (Bool-cases (str_eq key k)) [
  | inl here ↦ rw here refl
  | inr there ↦ rw there (lookup-map_groups f key rest)
]

lookup-all :
    {A : Type 0} (f : List UsageLogEntry → A) (pick_key : UsageLogEntry → String) (key : String)
    (entries : List UsageLogEntry)
    → lookup key (map_groups f (group_from pick_key entries []))
      ≡ mapped f (added none (of_key pick_key key entries))
unfolding lookup
lookup-all f pick_key key entries =
    lookup-map_groups f key (group_from pick_key entries [])
    ∙ ap (mapped f) (lookup-group_from pick_key key entries [])

summed-mapped :
    {S : Type 0} (f : List UsageLogEntry → S) (es : List UsageLogEntry)
    → mapped f (added none es) ≡ summed f es
summed-mapped f [] = refl
summed-mapped f (e ∷ es) = refl

lookup-group_usage_by_model :
    {S : Type 0} (summarize : List UsageLogEntry → S) (model : String)
    (entries : List UsageLogEntry)
    → lookup model (group_usage_by_model entries summarize)
      ≡ summed summarize (of_key (λ (e : UsageLogEntry). e.model) model entries)
unfolding group_usage_by_model
lookup-group_usage_by_model summarize model entries =
    lookup-all summarize (λ (e : UsageLogEntry). e.model) model entries
    ∙ summed-mapped summarize (of_key (λ (e : UsageLogEntry). e.model) model entries)

under :
    {S : Type 0} (summarize : List UsageLogEntry → S) (es : List UsageLogEntry) (model : String)
    → (do
      models ← mapped (λ group. group_usage_by_model group summarize) (added none es)
      lookup model models)
      ≡ summed summarize (of_key (λ (e : UsageLogEntry). e.model) model es)
under summarize [] model = refl
under summarize (e ∷ es) model = lookup-group_usage_by_model summarize model (e ∷ es)

-- In the usage grouped by a key, what stands under a key and a model is the summary of all entries
-- with that key and that model, in their order, and nothing where there are none.
pub lookup-group_usage_by_dimension :
    {S : Type 0} (summarize : List UsageLogEntry → S) (pick_key : UsageLogEntry → String)
    (key model : String) (entries : List UsageLogEntry)
    → (do
      models ← lookup key (group_usage_by_dimension entries pick_key summarize)
      lookup model models)
      ≡ summed summarize
          (of_key (λ (e : UsageLogEntry). e.model) model (of_key pick_key key entries))
unfolding group_usage_by_dimension
lookup-group_usage_by_dimension summarize pick_key key model entries =
    ap (λ o. o >>= lookup model)
      (lookup-all (λ group. group_usage_by_model group summarize) pick_key key entries)
    ∙ under summarize (of_key pick_key key entries) model
