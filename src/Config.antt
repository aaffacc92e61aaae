-- ===== src/Config.antt =====
-- src/config.rs: the numeric limits that the program's parts share.
use mini_redis.Prelude.{ℕ, ◌-◌, ◌^◌}

abbrev pub default_max_connections : ℕ
default_max_connections = 512

abbrev pub max_buffered_bytes : ℕ
max_buffered_bytes = 65536

abbrev pub array_length_limit_exclusive : ℕ
array_length_limit_exclusive = 1024

abbrev pub max_array_depth : ℕ
max_array_depth = 32

-- `usize::MAX` of a 64-bit target.
abbrev pub usize_max : ℕ
usize_max = 2 ^ 64 - 1
