-- ===== src/Metrics/Laws.antt =====
-- The arithmetic of the counters of src/metrics.rs.
use mini_redis.Prelude.{ℕ, ◌+◌, ◌%◌, ◌≤◌, ◌≡◌, arith}
use mini_redis.Config.{usize_max}
use mini_redis.Metrics.{fetch_inc, fetch_dec}

pub fetch_dec-fetch_inc : (n : ℕ) → n ≤ usize_max → fetch_dec (fetch_inc n) ≡ n
unfolding fetch_dec fetch_inc
fetch_dec-fetch_inc n h = omega arith

pub fetch_inc-mod : (n : ℕ) → fetch_inc n ≡ (n + 1) % (usize_max + 1)
unfolding fetch_inc
fetch_inc-mod n = omega arith
