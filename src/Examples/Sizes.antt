-- ===== src/Examples/Sizes.antt =====
-- The theorem on sizes at a concrete input.
use io_scheduler.Prelude.{ℕ, ◌+◌, ◌-◌, ◌*◌, ◌≡◌, ◌↔◌, some, [], ◌∷◌}
use io_scheduler.Prelude.Bytes.{codes}
use io_scheduler.Types.{Bytes}
use io_scheduler.Sizes.{Doubles, without_spaces, size, parse_size}
use io_scheduler.Sizes.Units.{IsSize, parse_size_iff}

abbrev value : ℕ → Bytes → ℕ
value n [] = n
value n (c ∷ s) = value (n * 10 + (c - b'0')) s

-- A `double` that holds a number as it is.
abbrev exact : Doubles
exact = record {
  Double = ℕ;
  stod = λ digits. some (value 0 digits);
  of_uint64 = λ n. n;
  multiply = λ m n. m * n;
  round = λ n. n;
  to_uint64 = λ n. n;
}

parse_size_iff_example :
    (parse_size exact (codes "12 KiB") ≡ size 12288)
    ↔ IsSize exact (without_spaces (codes "12 KiB")) 12288
parse_size_iff_example = parse_size_iff exact (codes "12 KiB") 12288
