-- ===== src/Sizes/Units.antt =====
-- Which texts are sizes.
use mathlib.Core.Option
use mathlib.Core.Path.{subst}
use io_scheduler.Prelude.{
  ℕ, suc, ◌+◌, ◌≡◌, ◌↔◌, ◌⊎◌, refl, ap, sym, ◌∙◌, Bool, true, false, Option, none, some, List, [],
  ◌∷◌, ◌++◌, length, if◌then◌else◌, ◌==◌, ◌||◌, not, nat_key, arith, Bool-cases, inl, inr,
  Option-cases, ◌^◌,
}
use io_scheduler.Prelude.Bytes.{
  codes, find?, starts_with, take, drop, take-append, drop-append, take-append-drop, drop-drop,
}
use io_scheduler.Prelude.Text.{text_key, Every}
use io_scheduler.Types.{Bytes}
use io_scheduler.Sizes.{
  Doubles, without_spaces, is_digit, all_digits, conversions, at_unit, find_unit, size,
  not_a_number, is_empty, multiplied, parse_number, with_unit, parse_size,
}

-- A unit does not begin with a digit.
abbrev is_named : Bytes → Bool
is_named [] = false
is_named (c ∷ cs) = not (is_digit c)

abbrev later {ℓ} : {A : Type ℓ} → ℕ → Option (ℕ × A) → Option (ℕ × A)
later n none = none
later n (some (p, a)) = some (n + p, a)

suc-later :
    (n : ℕ) (o : Option ℕ)
    → Option.map suc (Option.map (λ p. n + p) o) ≡ Option.map (λ p. suc n + p) o
suc-later n none = refl
suc-later n (some p) = ap some (omega arith)

at_unit-later :
    (suffix digits rest : Bytes) (factor : ℕ) (o : Option ℕ) (next : Option (ℕ × ℕ))
    → at_unit suffix
        (digits ++ rest)
        factor
        (Option.map (λ p. length digits + p) o)
        (later (length digits) next)
      ≡ later (length digits) (at_unit suffix rest factor o next)
at_unit-later suffix digits rest factor none next = refl
at_unit-later suffix digits rest factor (some p) next =
    let same : drop (length digits + p) (digits ++ rest) ≡ drop p rest =
      sym (drop-drop (length digits) p (digits ++ rest)) ∙ ap (drop p) (drop-append digits rest) in
    rw same
      (elim (suffix == drop p rest)
        as (λ b.
          (if b then some (length digits + p, factor) else later (length digits) next)
          ≡ later (length digits) (if b then some (p, factor) else next)) [
            | true ↦ refl
            | false ↦ refl
          ])

find?-digits :
    (suffix digits rest : Bytes)
    → is_named suffix ≡ true
    → all_digits digits ≡ true
    → find? suffix (digits ++ rest) ≡ Option.map (λ p. length digits + p) (find? suffix rest)
unfolding find? starts_with
find?-digits [] digits rest u h = absurd (cc u)
find?-digits (c ∷ cs) [] rest u h =
    elim (find? (c ∷ cs) rest) as (λ o. o ≡ Option.map (λ p. 0 + p) o) [
      | none ↦ refl
      | some p ↦ ap some (omega arith)
    ]
find?-digits (c ∷ cs) (d ∷ digits) rest u h =
    let other : (c == d) ≡ false = ground (arith, u, h) in
    let more : all_digits digits ≡ true = ground (arith, h) in
    rw (other, find?-digits (c ∷ cs) digits rest u more)
      (suc-later (length digits) (find? (c ∷ cs) rest))

-- The unit is found behind the digits.
find_unit-digits :
    (table : List (Bytes × ℕ)) (digits rest : Bytes)
    → Every (λ (unit : Bytes × ℕ). is_named unit.0 ≡ true) table
    → all_digits digits ≡ true
    → find_unit table (digits ++ rest) ≡ later (length digits) (find_unit table rest)
unfolding find_unit
find_unit-digits [] digits rest u h = refl
find_unit-digits ((suffix, factor) ∷ table) digits rest (u, us) h =
    rw (find?-digits suffix digits rest u h, find_unit-digits table digits rest us h)
      (at_unit-later suffix digits rest factor (find? suffix rest) (find_unit table rest))

named : Every (λ (unit : Bytes × ℕ). is_named unit.0 ≡ true) conversions
named = (refl, (refl, (refl, (refl, (refl, (refl, (refl, (refl, (refl, (refl, tt))))))))))

no_unit : find_unit conversions [] ≡ none
unfolding find_unit find? starts_with
no_unit = refl

each_found :
    Every (λ (unit : Bytes × ℕ). find_unit conversions unit.0 ≡ some (0, unit.1)) conversions
unfolding find_unit find? starts_with
each_found = (refl, (refl, (refl, (refl, (refl, (refl, (refl, (refl, (refl, (refl, tt))))))))))

abbrev pub IsIn : Bytes × ℕ → List (Bytes × ℕ) → Type 0
IsIn unit [] = ⊥
IsIn unit (u ∷ us) = (unit ≡ u) ⊎ IsIn unit us

-- The units: G, M and K are powers of 1000, with or without a B, and with iB powers of 1024.
abbrev pub units : List (Bytes × ℕ)
units =
    (codes "GiB", 1024 ^ 3)
    ∷ (codes "GB", 1000 ^ 3)
    ∷ (codes "G", 1000 ^ 3)
    ∷ (codes "MiB", 1024 ^ 2)
    ∷ (codes "MB", 1000 ^ 2)
    ∷ (codes "M", 1000 ^ 2)
    ∷ (codes "KiB", 1024)
    ∷ (codes "KB", 1000)
    ∷ (codes "K", 1000)
    ∷ (codes "B", 1)
    ∷ []

-- A unit with its factor; without a unit the factor is 1.
abbrev pub IsUnit : Bytes × ℕ → Type 0
IsUnit unit = (unit ≡ ([], 1)) ⊎ IsIn unit units

of_member :
    (P : Bytes × ℕ → Type 0) (units : List (Bytes × ℕ)) (unit : Bytes × ℕ)
    → Every P units
    → IsIn unit units
    → P unit
of_member P [] unit h m = absurd m
of_member P (u ∷ us) unit (h, hs) (inl e) = subst P (sym e) h
of_member P (u ∷ us) unit (h, hs) (inr m) = of_member P us unit hs m

append-nil : (s : Bytes) → s ++ [] ≡ s
append-nil [] = refl
append-nil (c ∷ s) = ap (λ r. c ∷ r) (append-nil s)

-- The unit that a text has from a place on.
abbrev FoundIn : List (Bytes × ℕ) → Bytes → ℕ → ℕ → Type 0
FoundIn table s p factor = (suffix : Bytes) × IsIn (suffix, factor) table × (s ≡ take p s ++ suffix)

found_next :
    (u : Bytes × ℕ) (table : List (Bytes × ℕ)) (s : Bytes) (p factor : ℕ)
    → FoundIn table s p factor
    → FoundIn (u ∷ table) s p factor
found_next u table s p factor (x, m, e) = (x, inr m, e)

at_unit_inv :
    (suffix s : Bytes) (f : ℕ) (table : List (Bytes × ℕ)) (next : Option (ℕ × ℕ)) (at : Option ℕ)
    (p factor : ℕ)
    → at_unit suffix s f at next ≡ some (p, factor)
    → (next ≡ some (p, factor) → FoundIn table s p factor)
    → FoundIn ((suffix, f) ∷ table) s p factor
at_unit_inv suffix s f table next none p factor h k = found_next (suffix, f) table s p factor (k h)
at_unit_inv suffix s f table next (some q) p factor h k = elim (Bool-cases (suffix == drop q s)) [
  | inr other ↦
      let h' : next ≡ some (p, factor) = ground (arith, h, other) in
      found_next (suffix, f) table s p factor (k h')
  | inl this ↦
      let ends : suffix ≡ drop q s = (text_key.same_iff suffix (drop q s)).0 this in
      let place : q ≡ p = ground (arith, h, this) in
      let value : f ≡ factor = ground (arith, h, this) in
      (
        suffix,
        inl (ap (λ n. (suffix, n)) (sym value)),
        sym (take-append-drop p s)
            ∙ ap (λ r. take p s ++ r) (ap (λ n. drop n s) (sym place) ∙ sym ends),
      )
]

find_unit_inv :
    (table : List (Bytes × ℕ)) (s : Bytes) (p factor : ℕ)
    → find_unit table s ≡ some (p, factor)
    → FoundIn table s p factor
unfolding find_unit
find_unit_inv [] s p factor h = absurd (cc h)
find_unit_inv ((suffix, f) ∷ table) s p factor h =
    at_unit_inv suffix s f table (find_unit table s) (find? suffix s) p factor h
      (λ h'. find_unit_inv table s p factor h')

module _ (d : Doubles) where
  open d use {Double, stod, of_uint64, multiply, round, to_uint64}

  -- The number that digits and a factor come to.
  abbrev pub IsProduct : Bytes → ℕ → ℕ → Type 0
  IsProduct digits factor n =
      (value : Double) × (stod digits ≡ some value)
      × (n ≡ to_uint64 (round (multiply value (of_uint64 factor))))

  -- What stands in a text that is a size: digits and a unit.
  abbrev pub IsSize : Bytes → ℕ → Type 0
  IsSize s n =
      (digits : Bytes) × (unit : Bytes × ℕ) × IsUnit unit
      × (s ≡ digits ++ unit.0)
      × (is_empty digits ≡ false)
      × (all_digits digits ≡ true)
      × IsProduct digits unit.1 n

  multiplied_inv :
      (digits : Bytes) (factor n : ℕ)
      → multiplied d factor (stod digits) ≡ size n
      → IsProduct digits factor n
  multiplied_inv digits factor n h = elim (Option-cases (stod digits)) [
    | inl large ↦ absurd (ground (arith, h, large))
    | inr (value, e) ↦ (value, e, ground (arith, h, e))
  ]

  tests_inv :
      (empty digits : Bool) (text : Bytes) (factor n : ℕ)
      → (if empty || not digits then not_a_number else multiplied d factor (stod text)) ≡ size n
      → (empty ≡ false) × (digits ≡ true) × IsProduct text factor n
  tests_inv true digits text factor n h = absurd (cc h)
  tests_inv false true text factor n h = (refl, refl, multiplied_inv text factor n h)
  tests_inv false false text factor n h = absurd (cc h)

  parse_number_inv :
      (text : Bytes) (factor n : ℕ)
      → parse_number d text factor ≡ size n
      → (is_empty text ≡ false) × (all_digits text ≡ true) × IsProduct text factor n
  parse_number_inv text factor n h = tests_inv (is_empty text) (all_digits text) text factor n h

  size_inv :
      (s : Bytes) (found : Option (ℕ × ℕ)) (n : ℕ)
      → find_unit conversions s ≡ found
      → with_unit d s found ≡ size n
      → IsSize s n
  size_inv s none n e h =
      let (a, b, c) = parse_number_inv s 1 n h in
      (s, ([], 1), inl refl, sym (append-nil s), a, b, c)
  size_inv s (some (p, factor)) n e h =
      let (suffix, m, same) = find_unit_inv conversions s p factor e in
      let (a, b, c) = parse_number_inv (take p s) factor n h in
      (take p s, (suffix, factor), inr m, same, a, b, c)

  number_of :
      (digits : Bytes) (factor n : ℕ)
      → is_empty digits ≡ false
      → all_digits digits ≡ true
      → IsProduct digits factor n
      → parse_number d digits factor ≡ size n
  number_of digits factor n a b (value, c, same) = rw (a, b, c, same) refl

  size_of :
      (digits suffix : Bytes) (factor n : ℕ)
      → IsUnit (suffix, factor)
      → is_empty digits ≡ false
      → all_digits digits ≡ true
      → IsProduct digits factor n
      → with_unit d (digits ++ suffix) (find_unit conversions (digits ++ suffix)) ≡ size n
  size_of digits suffix factor n (inl e) a b c =
      let bare : suffix ≡ [] = ap (λ u. u.0) e in
      let one : factor ≡ 1 = ap (λ u. u.1) e in
      let nowhere = find_unit-digits conversions digits [] named b in
      let all = subst (λ f. IsProduct digits f n) one c in
      rw (bare, nowhere, no_unit, append-nil digits) (number_of digits 1 n a b all)
  size_of digits suffix factor n (inr m) a b c =
      let here = find_unit-digits conversions digits suffix named b in
      let P : Bytes × ℕ → Type 0 = λ u. find_unit conversions u.0 ≡ some (0, u.1) in
      let found = of_member P conversions (suffix, factor) each_found m in
      let place : length digits + 0 ≡ length digits = omega arith in
      rw (here, found, place, take-append digits suffix) (number_of digits factor n a b c)

  -- A text is read as a size exactly if it is, without its spaces, a decimal number and one of the units, or no
  -- unit; the size is then the number as a `double`, multiplied with the factor of the unit and rounded. A K, M or G
  -- is a power of 1000 and a Ki, Mi or Gi of 1024.
  pub parse_size_iff :
      (str : Bytes) (n : ℕ) → (parse_size d str ≡ size n) ↔ IsSize (without_spaces str) n
  unfolding parse_size
  parse_size_iff str n = (
    λ h. size_inv (without_spaces str) (find_unit conversions (without_spaces str)) n refl h,
    λ (digits, (suffix, factor), u, e, a, b, c). rw e (size_of digits suffix factor n u a b c),
  )
