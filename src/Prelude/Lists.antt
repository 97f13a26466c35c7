-- ===== src/Prelude/Lists.antt =====
-- Lists measured and indexed by native numbers. A list also serves as the objects that shared
-- pointers point to: a pointer is an index, a new object goes to the end.
use Prim.Native.Nat.{ℕ, zero, suc, ◌+◌, ◌<◌}
use mathlib.Core.Path.{◌≡◌, refl}
use mathlib.Core.List.{List, [], ◌∷◌, ◌++◌}
use mathlib.Core.Option
use mathlib.Core.Option.{Option, none, some}
use native.Mathlib.Omega.{arith}
use io_scheduler.Prelude.Tests.{◌==◌, nat_key, if◌then◌else◌}

module _ {ℓ} {A : Type ℓ} where
  abbrev pub length : List A → ℕ
  length [] = 0
  length (x ∷ xs) = suc (length xs)

  pub length-append : (xs ys : List A) → length (xs ++ ys) ≡ length xs + length ys
  length-append [] ys = omega arith
  length-append (x ∷ xs) ys = omega (arith, length-append xs ys)

  -- What a pointer points to.
  unfoldable pub deref : List A → ℕ → Option A
  deref [] p = none
  deref (x ∷ xs) zero = some x
  deref (x ∷ xs) (suc p) = deref xs p

  -- `std::make_shared`: the new object's pointer is `length xs`.
  unfoldable pub alloc : List A → A → List A
  alloc xs a = xs ++ a ∷ []

  -- A mutation through a pointer.
  unfoldable pub modify : List A → ℕ → (A → A) → List A
  modify [] p f = []
  modify (x ∷ xs) zero f = f x ∷ xs
  modify (x ∷ xs) (suc p) f = x ∷ modify xs p f

  pub deref-alloc :
      (xs : List A) (a : A) (p : ℕ)
      → deref (alloc xs a) p ≡ (if length xs == p then some a else deref xs p)
  unfolding deref alloc
  deref-alloc [] a zero = refl
  deref-alloc [] a (suc p) = ground arith
  deref-alloc (x ∷ xs) a zero = ground arith
  deref-alloc (x ∷ xs) a (suc p) = unfold alloc in ground (arith, deref-alloc xs a p)

  pub deref-modify :
      (xs : List A) (p : ℕ) (f : A → A) (q : ℕ)
      → deref (modify xs p f) q ≡ (if p == q then Option.map f (deref xs q) else deref xs q)
  unfolding deref modify
  deref-modify [] p f q = ground arith
  deref-modify (x ∷ xs) zero f zero = refl
  deref-modify (x ∷ xs) zero f (suc q) = ground arith
  deref-modify (x ∷ xs) (suc p) f zero = ground arith
  deref-modify (x ∷ xs) (suc p) f (suc q) = ground (arith, deref-modify xs p f q)

  pub deref-bound : (xs : List A) (p : ℕ) {a : A} → deref xs p ≡ some a → p < length xs
  unfolding deref
  deref-bound [] p h = ground arith
  deref-bound (x ∷ xs) zero h = omega arith
  deref-bound (x ∷ xs) (suc p) h = omega (arith, deref-bound xs p h)
