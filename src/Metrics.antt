-- ===== src/Metrics.antt =====
-- src/metrics.rs: seven atomic counters of type `usize`. Each method is one atomic operation; an
-- increment wraps at 2^64.
pub mod Laws
use mini_redis.Prelude.{ℕ, ◌+◌, ◌%◌}
use mini_redis.Config.{usize_max}

-- `Metrics`. Its fields are private to the file and each has a method of the same name that loads it.
pub record Metrics : Type 0 where
  pub active_connections : ℕ
  pub requests_received : ℕ
  pub command_responses_written : ℕ
  pub cache_hits : ℕ
  pub cache_misses : ℕ
  pub command_parse_errors : ℕ
  pub accept_errors : ℕ

-- `Metrics::new`.
abbrev pub new_metrics : Metrics
new_metrics = record {
  active_connections = 0;
  requests_received = 0;
  command_responses_written = 0;
  cache_hits = 0;
  cache_misses = 0;
  command_parse_errors = 0;
  accept_errors = 0;
}

-- `fetch_add(1)` and `fetch_sub(1)`, which wrap around.
unfoldable pub fetch_inc : ℕ → ℕ
fetch_inc n = (n + 1) % (usize_max + 1)

unfoldable pub fetch_dec : ℕ → ℕ
fetch_dec n = (n + usize_max) % (usize_max + 1)

abbrev pub inc_active_connections : Metrics → Metrics
inc_active_connections m = record m { active_connections = fetch_inc m.active_connections }

abbrev pub dec_active_connections : Metrics → Metrics
dec_active_connections m = record m { active_connections = fetch_dec m.active_connections }

abbrev pub inc_requests_received : Metrics → Metrics
inc_requests_received m = record m { requests_received = fetch_inc m.requests_received }

abbrev pub inc_command_responses_written : Metrics → Metrics
inc_command_responses_written m = record m {
  command_responses_written = fetch_inc m.command_responses_written;
}

abbrev pub inc_cache_hits : Metrics → Metrics
inc_cache_hits m = record m { cache_hits = fetch_inc m.cache_hits }

abbrev pub inc_cache_misses : Metrics → Metrics
inc_cache_misses m = record m { cache_misses = fetch_inc m.cache_misses }

abbrev pub inc_command_parse_errors : Metrics → Metrics
inc_command_parse_errors m = record m { command_parse_errors = fetch_inc m.command_parse_errors }

abbrev pub inc_accept_errors : Metrics → Metrics
inc_accept_errors m = record m { accept_errors = fetch_inc m.accept_errors }
