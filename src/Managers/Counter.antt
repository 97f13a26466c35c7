-- ===== src/Managers/Counter.antt =====
-- The `static std::atomic_uint64_t current_id` from which each `create` takes its number.
use io_scheduler.Prelude.{ℕ, ◌+◌, ◌%◌, ◌^◌}

-- `current_id++`
unfoldable pub next : ℕ → ℕ
next n = (n + 1) % 2 ^ 64
