-- ===== src/Store/Logs/Query.antt =====
-- What `queryLogs` of src/store/memory.ts returns.
use prism_pipe.Prelude.{
  ℕ, suc, get_or, ◌≡◌, ◌≤◌, refl, sym, Option, none, some, String, List, [], ◌∷◌, filter, length,
  All, drop, take, leb, ◌==◌, if◌then◌else◌, arith, Bool-cases, inl, inr,
}
use prism_pipe.Store.Logs.{
  RequestLogEntry, LogQuery, matches, filter_logs, count_logs, place_log, newest_first, skip_offset,
  cut_limit, query_logs,
}

abbrev pub NewestFirst : List RequestLogEntry → Type 0
NewestFirst [] = Unit
NewestFirst (x ∷ xs) = All (λ y. y.timestamp ≤ x.timestamp) xs × NewestFirst xs

All-later :
    (a b : ℕ) (xs : List RequestLogEntry)
    → a ≤ b
    → All (λ y. y.timestamp ≤ a) xs
    → All (λ y. y.timestamp ≤ b) xs
All-later a b [] le h = tt
All-later a b (x ∷ xs) le h = (omega (arith, le, h.0), All-later a b xs le h.1)

module _ (P : RequestLogEntry → Type 0) where
  All-place_log :
      (x : RequestLogEntry) (xs : List RequestLogEntry) → P x → All P xs → All P (place_log x xs)
  unfolding place_log
  All-place_log x [] p h = (p, tt)
  All-place_log x (y ∷ ys) p h = elim (Bool-cases (leb y.timestamp x.timestamp)) [
    | inl before ↦ rw before (p, h)
    | inr after ↦ rw after (h.0, All-place_log x ys p h.1)
  ]

place_log-NewestFirst :
    (x : RequestLogEntry) (xs : List RequestLogEntry)
    → NewestFirst xs
    → NewestFirst (place_log x xs)
unfolding place_log
place_log-NewestFirst x [] s = (tt, tt)
place_log-NewestFirst x (y ∷ ys) s = elim (Bool-cases (leb y.timestamp x.timestamp)) [
  | inl before ↦
      rw before ((ground arith, All-later y.timestamp x.timestamp ys (ground arith) s.0), s)
  | inr after ↦ rw after (All-place_log _ x ys (ground arith) s.0, place_log-NewestFirst x ys s.1)
]

newest_first-NewestFirst : (xs : List RequestLogEntry) → NewestFirst (newest_first xs)
unfolding newest_first
newest_first-NewestFirst [] = tt
newest_first-NewestFirst (x ∷ xs) =
    place_log-NewestFirst x (newest_first xs) (newest_first-NewestFirst xs)

length-place_log :
    (x : RequestLogEntry) (xs : List RequestLogEntry) → length (place_log x xs) ≡ suc (length xs)
unfolding place_log
length-place_log x [] = refl
length-place_log x (y ∷ ys) = ground (arith, length-place_log x ys)

length-newest_first : (xs : List RequestLogEntry) → length (newest_first xs) ≡ length xs
unfolding newest_first
length-newest_first [] = refl
length-newest_first (x ∷ xs) =
    ground (arith, length-newest_first xs, length-place_log x (newest_first xs))

-- The entries of one time, in the order of the list.
abbrev pub of_time : ℕ → List RequestLogEntry → List RequestLogEntry
of_time t logs = filter (λ log. log.timestamp == t) logs

of_time-place_log :
    (t : ℕ) (x : RequestLogEntry) (xs : List RequestLogEntry)
    → of_time t (place_log x xs) ≡ of_time t (x ∷ xs)
unfolding place_log
of_time-place_log t x [] = refl
of_time-place_log t x (y ∷ ys) = elim (Bool-cases (leb y.timestamp x.timestamp)) [
  | inl before ↦ rw before refl
  | inr after ↦ rw after (ground (arith, of_time-place_log t x ys))
]

of_time-newest_first :
    (t : ℕ) (xs : List RequestLogEntry) → of_time t (newest_first xs) ≡ of_time t xs
unfolding newest_first
of_time-newest_first t [] = refl
of_time-newest_first t (x ∷ xs) =
    ground (arith, of_time-place_log t x (newest_first xs), of_time-newest_first t xs)

-- The entries behind the offset, and of those as many as the limit says, if it says more than 0.
abbrev pub page : LogQuery → List RequestLogEntry → List RequestLogEntry
page q logs =
    let rest = drop (get_or q.offset 0) logs in
    if get_or q.limit 0 == 0 then rest else take (get_or q.limit 0) rest

skip_offset-drop :
    (n : Option ℕ) (logs : List RequestLogEntry) → skip_offset n logs ≡ drop (get_or n 0) logs
skip_offset-drop none logs = refl
skip_offset-drop (some n) logs = refl

cut_limit-take :
    (n : Option ℕ) (logs : List RequestLogEntry)
    → cut_limit n logs ≡ (if get_or n 0 == 0 then logs else take (get_or n 0) logs)
cut_limit-take none logs = refl
cut_limit-take (some n) logs = refl

-- All entries that match the query, the newest first and those of one time in the order in which
-- they were logged.
pub record Ranked (low : String → String) (q : LogQuery) (logs all : List RequestLogEntry)
    : Type 0 where
  pub newest : NewestFirst all
  pub same_entries : (t : ℕ) → of_time t all ≡ of_time t (filter (λ log. matches low q log) logs)
  pub counted : length all ≡ count_logs low q logs

-- A query puts all entries that match it in order, the newest first and those of one time as they
-- were logged, which are as many as it counts; of that list it returns the entries behind the offset,
-- and only as many as the limit allows, if there is a limit and it is not 0.
pub query_logs_lem :
    (to_lower_case : String → String) (q : LogQuery) (logs : List RequestLogEntry)
    → (all : List RequestLogEntry) × Ranked to_lower_case q logs all
      × (query_logs to_lower_case q logs ≡ page q all)
unfolding query_logs count_logs filter_logs
query_logs_lem low q logs =
    let found = filter (matches low q) logs in
    let all = newest_first found in
    (
      all,
      record {
        newest = newest_first-NewestFirst found;
        same_entries = λ t. of_time-newest_first t found;
        counted = length-newest_first found;
      },
      rw (sym (skip_offset-drop q.offset all)) (cut_limit-take q.limit (skip_offset q.offset all)),
    )
