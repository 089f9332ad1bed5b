-- ===== src/Store/Logs.antt =====
-- src/store/memory.ts: the request log, by the queries of src/store/interface.ts. `to_lower_case`
-- is `String.prototype.toLowerCase`; a text of a query that is empty, or a number that is 0, is falsy.
pub mod Query
pub mod Delete
mod Tests
use prism_pipe.Prelude.{
  ℕ, ◌+◌, ◌-◌, Bool, true, false, Option, none, some, String, List, [], ◌∷◌, ltb, leb, ◌==◌, str_eq,
  not, ◌||◌, if◌then◌else◌, filter, length, drop, take, ◌++◌,
}
use text.Mathlib.Text.{find?}

pub record RequestLogEntry : Type 0 where
  pub request_id : String
  pub timestamp : ℕ
  pub method : String
  pub path : String
  pub provider : String
  pub model : String
  pub status : ℕ
  pub latency_ms : ℕ
  pub input_tokens : ℕ
  pub output_tokens : ℕ
  pub error_class : Option String
  pub source_ip : String
  pub port : Option String
  pub proxy_id : Option String
  pub route_path : Option String
  pub tenant_id : Option String
  pub compose_steps : Option ℕ
  pub fallback_used : Option Bool
  pub upstream_latency_ms : Option ℕ

-- `LogQuery`, with the fields of `LogFilter`.
pub record LogQuery : Type 0 where
  pub since : Option ℕ
  pub until : Option ℕ
  pub provider : Option String
  pub status : Option ℕ
  pub search : Option String
  pub model : Option String
  pub port : Option String
  pub proxy_id : Option String
  pub route_path : Option String
  pub tenant_id : Option String
  pub error_class : Option String
  pub limit : Option ℕ
  pub offset : Option ℕ

-- `since && timestamp < since`
abbrev pub too_early : Option ℕ → ℕ → Bool
too_early none t = false
too_early (some since) t = if since == 0 then false else ltb t since

abbrev pub too_late : Option ℕ → ℕ → Bool
too_late none t = false
too_late (some until) t = if until == 0 then false else ltb until t

-- `wanted && value !== wanted`
abbrev pub differs : Option String → Option String → Bool
differs none value = false
differs (some wanted) none = not (str_eq wanted "")
differs (some wanted) (some value) = if str_eq wanted "" then false else not (str_eq value wanted)

-- `wanted !== undefined && value !== wanted`
abbrev pub other_status : Option ℕ → ℕ → Bool
other_status none value = false
other_status (some wanted) value = not (value == wanted)

-- `text.includes(term)`
abbrev pub contains : String → String → Bool
contains text term = elim (find? text term) [ none ↦ false | some at ↦ true ]

module _ (to_lower_case : String → String) where
  -- `search` is given and the entry does not match it.
  abbrev pub search_misses : Option String → RequestLogEntry → Bool
  search_misses none log = false
  search_misses (some search) log =
      let term = to_lower_case search in
      if str_eq search ""
      then false
      else not (
          contains (to_lower_case log.path) term
          || contains (to_lower_case log.provider) term
          || contains (to_lower_case log.model) term)

  -- The callback of `filterLogs`.
  unfoldable pub matches : LogQuery → RequestLogEntry → Bool
  matches q log =
      if too_early q.since log.timestamp
      then false
      else if too_late q.until log.timestamp
      then false
      else if differs q.provider (some log.provider)
      then false
      else if other_status q.status log.status
      then false
      else if differs q.model (some log.model)
      then false
      else if differs q.port log.port
      then false
      else if differs q.proxy_id log.proxy_id
      then false
      else if differs q.route_path log.route_path
      then false
      else if differs q.tenant_id log.tenant_id
      then false
      else if differs q.error_class log.error_class
      then false
      else not (search_misses q.search log)

  -- The callback of `deleteLogs`: the entries to keep.
  unfoldable pub to_keep : LogQuery → RequestLogEntry → Bool
  to_keep q log =
      if too_early q.since log.timestamp
      then true
      else if too_late q.until log.timestamp
      then true
      else if differs q.provider (some log.provider)
      then true
      else if other_status q.status log.status
      then true
      else if differs q.model (some log.model)
      then true
      else if differs q.port log.port
      then true
      else if differs q.proxy_id log.proxy_id
      then true
      else if differs q.route_path log.route_path
      then true
      else if differs q.tenant_id log.tenant_id
      then true
      else if differs q.error_class log.error_class
      then true
      else search_misses q.search log

  unfoldable pub filter_logs : LogQuery → List RequestLogEntry → List RequestLogEntry
  unfolding matches
  filter_logs q logs = filter (matches q) logs

  unfoldable pub count_logs : LogQuery → List RequestLogEntry → ℕ
  unfolding filter_logs
  count_logs q logs = length (filter_logs q logs)

  -- The number of deleted entries, and the log that is left.
  unfoldable pub delete_logs : LogQuery → List RequestLogEntry → ℕ × List RequestLogEntry
  unfolding to_keep
  delete_logs q logs = let kept = filter (to_keep q) logs in (length logs - length kept, kept)

-- `sort((a, b) => b.timestamp - a.timestamp)`, which is stable.
unfoldable pub place_log : RequestLogEntry → List RequestLogEntry → List RequestLogEntry
place_log log [] = log ∷ []
place_log log (next ∷ rest) =
    if leb next.timestamp log.timestamp then log ∷ next ∷ rest else next ∷ place_log log rest

unfoldable pub newest_first : List RequestLogEntry → List RequestLogEntry
unfolding place_log
newest_first [] = []
newest_first (log ∷ logs) = place_log log (newest_first logs)

abbrev pub skip_offset : Option ℕ → List RequestLogEntry → List RequestLogEntry
skip_offset none logs = logs
skip_offset (some n) logs = drop n logs

abbrev pub cut_limit : Option ℕ → List RequestLogEntry → List RequestLogEntry
cut_limit none logs = logs
cut_limit (some n) logs = if n == 0 then logs else take n logs

unfoldable pub query_logs :
    (String → String) → LogQuery → List RequestLogEntry → List RequestLogEntry
unfolding filter_logs newest_first
query_logs to_lower_case q logs =
    cut_limit q.limit (skip_offset q.offset (newest_first (filter_logs to_lower_case q logs)))

unfoldable pub log_request : RequestLogEntry → List RequestLogEntry → List RequestLogEntry
log_request entry logs = logs ++ (entry ∷ [])
