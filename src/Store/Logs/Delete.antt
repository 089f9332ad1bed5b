-- ===== src/Store/Logs/Delete.antt =====
-- `deleteLogs` of src/store/memory.ts against `filterLogs`, whose tests it repeats inverted.
use prism_pipe.Prelude.{
  ◌+◌, ◌≡◌, refl, Bool, true, false, not, some, String, List, [], ◌∷◌, filter, length,
  if◌then◌else◌, arith,
}
use prism_pipe.Store.Logs.{
  RequestLogEntry, LogQuery, matches, to_keep, filter_logs, too_early, too_late, differs,
  other_status, search_misses, count_logs, delete_logs,
}

guarded : (c a b : Bool) → a ≡ not b → (if c then true else a) ≡ not (if c then false else b)
guarded true a b e = refl
guarded false a b e = e

not-not : (b : Bool) → b ≡ not (not b)
not-not true = refl
not-not false = refl

to_keep-eq :
    (to_lower_case : String → String) (q : LogQuery) (log : RequestLogEntry)
    → to_keep to_lower_case q log ≡ not (matches to_lower_case q log)
unfolding to_keep matches
to_keep-eq low q log = guarded (too_early q.since log.timestamp) _ _ (
    guarded (too_late q.until log.timestamp) _ _ (
      guarded (differs q.provider (some log.provider)) _ _ (
        guarded (other_status q.status log.status) _ _ (
          guarded (differs q.model (some log.model)) _ _ (
            guarded (differs q.port log.port) _ _ (
              guarded (differs q.proxy_id log.proxy_id) _ _ (
                guarded (differs q.route_path log.route_path) _ _ (
                  guarded (differs q.tenant_id log.tenant_id) _ _ (
                    guarded (differs q.error_class log.error_class) _ _
                      (not-not (search_misses low q.search log)))))))))))

module _ (p q : RequestLogEntry → Bool) (opposite : (x : RequestLogEntry) → q x ≡ not (p x)) where
  length-filter :
      (xs : List RequestLogEntry) → length (filter p xs) + length (filter q xs) ≡ length xs
  length-filter [] = omega arith
  length-filter (x ∷ xs) = ground (arith, length-filter xs, opposite x)

  filter_none : (xs : List RequestLogEntry) → filter p (filter q xs) ≡ []
  filter_none [] = refl
  filter_none (x ∷ xs) = ground (arith, filter_none xs, opposite x)

filter_other :
    (q r : RequestLogEntry → Bool)
    → ((x : RequestLogEntry) → r x ≡ true → q x ≡ true)
    → (xs : List RequestLogEntry) → filter r (filter q xs) ≡ filter r xs
filter_other q r h [] = refl
filter_other q r h (x ∷ xs) = ground (arith, filter_other q r h xs, h x)

-- A deletion returns the number of entries that the query counts, leaves no entry that it selects,
-- and leaves the answer of every query that selects none of those as it was.
pub delete_logs_lem :
    (to_lower_case : String → String) (q : LogQuery) (logs : List RequestLogEntry)
    → ((delete_logs to_lower_case q logs).0 ≡ count_logs to_lower_case q logs)
      × (filter_logs to_lower_case q (delete_logs to_lower_case q logs).1 ≡ [])
      × ((other : LogQuery)
          → ((log : RequestLogEntry)
              → matches to_lower_case other log ≡ true
              → matches to_lower_case q log ≡ false)
          → filter_logs to_lower_case other (delete_logs to_lower_case q logs).1
            ≡ filter_logs to_lower_case other logs)
unfolding delete_logs count_logs filter_logs
delete_logs_lem low q logs = (
  omega (arith, length-filter (matches low q) (to_keep low q) (to_keep-eq low q) logs),
  filter_none (matches low q) (to_keep low q) (to_keep-eq low q) logs,
  λ other apart.
      filter_other (to_keep low q) (matches low other)
        (λ x m. ground (arith, to_keep-eq low q x, apart x)) logs,
)
