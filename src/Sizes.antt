-- ===== src/Sizes.antt =====
-- src/common/utils/utils.cpp: sizes that are written with a unit (`parse_size`).
pub mod Units
use io_scheduler.Prelude.{
  ℕ, zero, suc, Bool, true, false, Option, none, some, List, [], ◌∷◌, ◌++◌, if◌then◌else◌, ◌==◌,
  ◌&&◌, ◌||◌, not, leb, nat_key,
}
use io_scheduler.Prelude.Bytes.{codes, find?, take, drop}
use io_scheduler.Prelude.Text.{text_key}
use io_scheduler.Types.{Bytes}

-- `std::isspace` in the classic locale
abbrev pub is_space : ℕ → Bool
is_space c = (leb 9 c && leb c 13) || c == 32

-- `std::remove_if`
abbrev pub without_spaces : Bytes → Bytes
without_spaces [] = []
without_spaces (c ∷ s) = if is_space c then without_spaces s else c ∷ without_spaces s

abbrev pub is_digit : ℕ → Bool
is_digit c = leb b'0' c && leb c b'9'

-- `std::all_of(…, ::isdigit)`
abbrev pub all_digits : Bytes → Bool
all_digits [] = true
all_digits (c ∷ s) = is_digit c && all_digits s

-- `conversions`
abbrev pub conversions : List (Bytes × ℕ)
conversions =
    (codes "GiB", 1073741824)
    ∷ (codes "GB", 1000000000)
    ∷ (codes "G", 1000000000)
    ∷ (codes "MiB", 1048576)
    ∷ (codes "MB", 1000000)
    ∷ (codes "M", 1000000)
    ∷ (codes "KiB", 1024)
    ∷ (codes "KB", 1000)
    ∷ (codes "K", 1000)
    ∷ (codes "B", 1)
    ∷ []

-- The loop over the units: where the unit begins, and its factor.
abbrev pub at_unit : Bytes → Bytes → ℕ → Option ℕ → Option (ℕ × ℕ) → Option (ℕ × ℕ)
at_unit suffix scopy factor none later = later
at_unit suffix scopy factor (some pos) later =
    if suffix == drop pos scopy then some (pos, factor) else later

unfoldable pub find_unit : List (Bytes × ℕ) → Bytes → Option (ℕ × ℕ)
find_unit [] scopy = none
find_unit ((suffix, factor) ∷ rest) scopy =
    at_unit suffix scopy factor (find? suffix scopy) (find_unit rest scopy)

-- `parse_size` gives a number, or throws `std::invalid_argument` or, in `std::stod`, `std::out_of_range`.
pub data Size : Type 0 where
  size : ℕ → Size
  not_a_number out_of_range : Size

abbrev pub is_empty : Bytes → Bool
is_empty [] = true
is_empty (c ∷ s) = false

-- `double`: the number that `std::stod` reads from digits, `none` if it is out of range, and the
-- operations on it.
pub record Doubles : Type 1 where
  pub Double : Type 0
  pub stod : Bytes → Option Double
  pub of_uint64 : ℕ → Double
  pub multiply : Double → Double → Double
  pub round : Double → Double
  pub to_uint64 : Double → ℕ

module _ (d : Doubles) where
  open d use {Double, stod, of_uint64, multiply, round, to_uint64}

  abbrev pub multiplied : ℕ → Option Double → Size
  multiplied factor none = out_of_range
  multiplied factor (some value) = size (to_uint64 (round (multiply value (of_uint64 factor))))

  abbrev pub parse_number : Bytes → ℕ → Size
  parse_number number_str factor =
      if is_empty number_str || not (all_digits number_str)
      then not_a_number
      else multiplied factor (stod number_str)

  -- Without a unit the number is all of the text, and the factor 1.
  abbrev pub with_unit : Bytes → Option (ℕ × ℕ) → Size
  with_unit scopy none = parse_number scopy 1
  with_unit scopy (some (pos, factor)) = parse_number (take pos scopy) factor

  unfoldable pub parse_size : Bytes → Size
  unfolding find_unit
  parse_size str = let scopy = without_spaces str in with_unit scopy (find_unit conversions scopy)
