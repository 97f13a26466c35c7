-- ===== src/Prelude/Bytes.antt =====
-- Strings as lists of byte values: literals, search and slices.
use Prim.Native.Nat.{ℕ, zero, suc, ◌+◌, ◌-◌, ◌≤◌}
use Prim.Native.Char.{code}
use Prim.Native.String.{String}
use mathlib.Core.Bool.{Bool, true, false, ◌&&◌}
use mathlib.Core.Option
use mathlib.Core.Option.{Option, none, some}
use mathlib.Core.Path.{◌≡◌, refl, ap}
use mathlib.Core.List.{List, [], ◌∷◌, ◌++◌}
use native.Mathlib.Omega.{arith}
use io_scheduler.Prelude.Lists.{length}
use io_scheduler.Prelude.Tests.{nat_beq_iff, has_value, ◌==◌, nat_key, if◌then◌else◌}

-- The code points of a literal: its bytes, as it is ASCII.
abbrev pub codes : String → List ℕ
codes String.[] = []
codes (String.◌∷◌ c s) = code c ∷ codes s

-- Whether the second text begins with the first.
unfoldable pub starts_with : List ℕ → List ℕ → Bool
starts_with [] s = true
starts_with (c ∷ cs) [] = false
starts_with (c ∷ cs) (d ∷ ds) = c == d && starts_with cs ds

-- `s.find(needle)`; `none` is `npos`.
unfoldable pub find? : List ℕ → List ℕ → Option ℕ
unfolding starts_with
find? needle [] = if starts_with needle [] then some 0 else none
find? needle (d ∷ ds) =
    let rest = Option.map suc (find? needle ds) in
    if starts_with needle (d ∷ ds) then some 0 else rest

abbrev pub take {ℓ} : {A : Type ℓ} → ℕ → List A → List A
take zero xs = []
take (suc n) [] = []
take (suc n) (x ∷ xs) = x ∷ take n xs

-- `s.substr(n)`
abbrev pub drop {ℓ} : {A : Type ℓ} → ℕ → List A → List A
drop zero xs = xs
drop (suc n) [] = []
drop (suc n) (x ∷ xs) = drop n xs

pub starts_with-append : (s t : List ℕ) → starts_with s (s ++ t) ≡ true
unfolding starts_with
starts_with-append [] t = refl
starts_with-append (c ∷ s) t = ground (arith, starts_with-append s t, nat_beq_iff c c)

-- A text is found wherever it stands.
pub find?-middle : (xs s t : List ℕ) → has_value (find? s (xs ++ s ++ t)) ≡ true
unfolding find?
find?-middle [] [] [] = unfold starts_with in refl
find?-middle [] [] (x ∷ t) = unfold starts_with in ground arith
find?-middle [] (c ∷ s) t = ground (arith, starts_with-append (c ∷ s) t)
find?-middle (x ∷ xs) s t = ground (arith, find?-middle xs s t)

pub drop-append : (s t : List ℕ) → drop (length s) (s ++ t) ≡ t
drop-append [] t = refl
drop-append (c ∷ s) t = drop-append s t

pub take-append : (s t : List ℕ) → take (length s) (s ++ t) ≡ s
take-append [] t = ground arith
take-append (c ∷ s) t = ap (λ r. c ∷ r) (take-append s t)

pub take-append-drop : (n : ℕ) (s : List ℕ) → take n s ++ drop n s ≡ s
take-append-drop zero s = refl
take-append-drop (suc n) [] = refl
take-append-drop (suc n) (c ∷ s) = ap (λ r. c ∷ r) (take-append-drop n s)

pub length-take : (n : ℕ) (s : List ℕ) → n ≤ length s → length (take n s) ≡ n
length-take zero s h = ground arith
length-take (suc n) [] h = absurd (omega arith)
length-take (suc n) (c ∷ s) h = omega (arith, length-take n s)

pub drop-drop : (m n : ℕ) (s : List ℕ) → drop n (drop m s) ≡ drop (m + n) s
drop-drop zero n s = ground arith
drop-drop (suc m) zero [] = ground arith
drop-drop (suc m) (suc n) [] = let e : suc m + suc n ≡ suc (m + suc n) = omega arith in rw e refl
drop-drop (suc m) n (c ∷ s) =
    let e : suc m + n ≡ suc (m + n) = omega arith in rw e (drop-drop m n s)

pub length-drop : (n : ℕ) (s : List ℕ) → length (drop n s) ≡ length s - n
length-drop zero s = ground arith
length-drop (suc n) [] = ground arith
length-drop (suc n) (c ∷ s) = ground (arith, length-drop n s)
