-- ===== src/Store/Logs/Tests.antt =====
-- Runs of the request log, and its theorems at a concrete log.
use prism_pipe.Prelude.{
  ℕ, ◌≡◌, refl, true, false, Option, none, some, String, List, [], ◌∷◌, length,
}
use prism_pipe.Store.Logs.{
  RequestLogEntry, LogQuery, matches, to_keep, filter_logs, count_logs, delete_logs, place_log,
  newest_first, query_logs,
}
use prism_pipe.Store.Logs.Query.{Ranked, page, query_logs_lem}
use prism_pipe.Store.Logs.Delete.{delete_logs_lem}

abbrev entry : String → ℕ → String → ℕ → RequestLogEntry
entry id timestamp provider status = record {
  request_id = id;
  timestamp = timestamp;
  method = "POST";
  path = "/v1/messages";
  provider = provider;
  model = "m";
  status = status;
  latency_ms = 10;
  input_tokens = 1;
  output_tokens = 2;
  error_class = none;
  source_ip = "::1";
  port = none;
  proxy_id = none;
  route_path = none;
  tenant_id = none;
  compose_steps = none;
  fallback_used = none;
  upstream_latency_ms = none;
}

abbrev by_status : Option ℕ → Option String → Option ℕ → LogQuery
by_status status search limit = record {
  since = none;
  until = none;
  provider = none;
  status = status;
  search = search;
  model = none;
  port = none;
  proxy_id = none;
  route_path = none;
  tenant_id = none;
  error_class = none;
  limit = limit;
  offset = none;
}

abbrev logs : List RequestLogEntry
logs = entry "a" 5 "openai" 200 ∷ entry "b" 9 "ollama" 502 ∷ entry "c" 7 "openai" 200 ∷ []

abbrev same_text : String → String
same_text s = s

logs_runs : Unit {0}
unfolding matches to_keep filter_logs count_logs delete_logs place_log newest_first query_logs
logs_runs = tt

latest :
    query_logs same_text (by_status none (some "openai") (some 1)) logs
    ≡ entry "c" 7 "openai" 200 ∷ []
unfolding logs_runs
latest = refl

-- A limit of 0 is no limit.
limit_zero : length (query_logs same_text (by_status none none (some 0)) logs) ≡ 3
unfolding logs_runs
limit_zero = refl

failures_deleted : (delete_logs same_text (by_status (some 502) none none) logs).0 ≡ 1
unfolding logs_runs
failures_deleted = refl

query_logs_lem_example :
    (all : List RequestLogEntry) × Ranked same_text (by_status (some 200) none (some 1)) logs all
    × (query_logs same_text (by_status (some 200) none (some 1)) logs
        ≡ page (by_status (some 200) none (some 1)) all)
query_logs_lem_example = query_logs_lem same_text (by_status (some 200) none (some 1)) logs

delete_logs_lem_example :
    ((delete_logs same_text (by_status (some 502) none none) logs).0
      ≡ count_logs same_text (by_status (some 502) none none) logs)
    × (filter_logs same_text
          (by_status (some 502) none none)
          (delete_logs same_text (by_status (some 502) none none) logs).1
        ≡ [])
    × ((other : LogQuery)
        → ((log : RequestLogEntry)
            → matches same_text other log ≡ true
            → matches same_text (by_status (some 502) none none) log ≡ false)
        → filter_logs same_text other
            (delete_logs same_text (by_status (some 502) none none) logs).1
          ≡ filter_logs same_text other logs)
delete_logs_lem_example = delete_logs_lem same_text (by_status (some 502) none none) logs
