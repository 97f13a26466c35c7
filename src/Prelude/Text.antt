-- ===== src/Prelude/Text.antt =====
-- Texts as keys of tables, texts cut at a separator, and texts put together again.
use Prim.Native.Nat.{ℕ}
use mathlib.Core.Path.{◌≡◌, refl}
use mathlib.Core.Logic.{◌≢◌, ◌↔◌, inl, inr}
use mathlib.Core.Bool.{Bool, true, false, ◌&&◌}
use mathlib.Core.List.{List, [], ◌∷◌, ◌++◌}
use native.Mathlib.Omega.{arith}
use io_scheduler.Prelude.Tests.{Bool-cases, Key, ◌==◌, nat_key, nat_beq_iff, if◌then◌else◌}

abbrev pub text_beq : List ℕ → List ℕ → Bool
text_beq [] [] = true
text_beq [] (d ∷ t) = false
text_beq (c ∷ s) [] = false
text_beq (c ∷ s) (d ∷ t) = c == d && text_beq s t

pub text_beq_iff : (s t : List ℕ) → (text_beq s t ≡ true) ↔ (s ≡ t)
text_beq_iff [] [] = ground arith
text_beq_iff [] (d ∷ t) = ground arith
text_beq_iff (c ∷ s) [] = ground arith
text_beq_iff (c ∷ s) (d ∷ t) = ground (arith, text_beq_iff s t, nat_beq_iff c d)

instance abbrev pub text_key : Key (List ℕ)
text_key = record { same = text_beq; same_iff = text_beq_iff }

-- Every member has the property.
abbrev pub Every {ℓ κ} : {A : Type ℓ} → (A → Type κ) → List A → Type κ
Every P [] = Unit
Every P (x ∷ xs) = P x × Every P xs

-- No member is `c`.
abbrev pub Without : ℕ → List ℕ → Type 0
Without c = Every (λ d. d ≢ c)

pub Every-append {ℓ κ} :
    {A : Type ℓ} (P : A → Type κ) (xs ys : List A) → Every P xs → Every P ys → Every P (xs ++ ys)
Every-append P [] ys h k = k
Every-append P (x ∷ xs) ys (hx, h) k = (hx, Every-append P xs ys h k)

pub Every-of_append {ℓ κ} :
    {A : Type ℓ} (P : A → Type κ) (xs ys : List A) → Every P (xs ++ ys) → Every P xs × Every P ys
Every-of_append P [] ys h = (tt, h)
Every-of_append P (x ∷ xs) ys (hx, h) = let (k, l) = Every-of_append P xs ys h in ((hx, k), l)

-- The texts between the separators; a text without any is one piece.
module _ (sep : ℕ) where
  -- A byte put before the first piece.
  abbrev pub onto_first : ℕ → List (List ℕ) → List (List ℕ)
  onto_first c [] = (c ∷ []) ∷ []
  onto_first c (p ∷ ps) = (c ∷ p) ∷ ps

  unfoldable pub pieces : List ℕ → List (List ℕ)
  pieces [] = [] ∷ []
  pieces (c ∷ s) = let rest = pieces s in if c == sep then [] ∷ rest else onto_first c rest

  -- The pieces with a separator between each two.
  unfoldable pub join : List (List ℕ) → List ℕ
  join [] = []
  join (p ∷ []) = p
  join (p ∷ (q ∷ ps)) = p ++ sep ∷ join (q ∷ ps)

  -- There is always a first piece.
  pub pieces_first : (s : List ℕ) → (p : List ℕ) × (ps : List (List ℕ)) × (pieces s ≡ p ∷ ps)
  unfolding pieces
  pieces_first [] = ([], [], refl)
  pieces_first (c ∷ s) = elim (Bool-cases (c == sep)) [
    | inl at_sep ↦ ([], pieces s, rw at_sep)
    | inr inside ↦ (let (p, ps, e) = pieces_first s in (c ∷ p, ps, rw (inside, e)))
  ]

  -- A piece of which some has been read.
  pub pieces-append : (p s : List ℕ) → Without sep p → pieces (p ++ sep ∷ s) ≡ p ∷ pieces s
  unfolding pieces
  pieces-append [] s h = ground (arith, nat_beq_iff sep sep)
  pieces-append (c ∷ p) s (hc, h) = ground (arith, pieces-append p s h, nat_beq_iff c sep)

  pub pieces_one : (p : List ℕ) → Without sep p → pieces p ≡ p ∷ []
  unfolding pieces
  pieces_one [] h = refl
  pieces_one (c ∷ p) (hc, h) = ground (arith, pieces_one p h, nat_beq_iff c sep)

  pub pieces-join : (ps : List (List ℕ)) → ps ≢ [] → Every (Without sep) ps → pieces (join ps) ≡ ps
  unfolding join
  pieces-join [] h k = absurd (h refl)
  pieces-join (p ∷ []) h (k, ks) = pieces_one p k
  pieces-join (p ∷ (q ∷ ps)) h (k, ks) =
      rw (pieces-append p (join (q ∷ ps)) k, pieces-join (q ∷ ps) (cc) ks)

  join-onto_first :
      (c : ℕ) (p : List ℕ) (ps : List (List ℕ)) → join (onto_first c (p ∷ ps)) ≡ c ∷ join (p ∷ ps)
  unfolding join
  join-onto_first c p [] = refl
  join-onto_first c p (q ∷ ps) = refl

  pub join-pieces : (s : List ℕ) → join (pieces s) ≡ s
  unfolding join pieces
  join-pieces [] = refl
  join-pieces (c ∷ s) =
      let (p, ps, e) = pieces_first s in
      let rest = join-pieces s in
      elim (Bool-cases (c == sep)) [
        | inl at_sep ↦ ground (arith, e, rest, nat_beq_iff c sep)
        | inr inside ↦ ground (arith, e, rest, join-onto_first c p ps)
      ]

  onto_first-Every :
      (c : ℕ) (ps : List (List ℕ))
      → c ≢ sep
      → Every (Without sep) ps
      → Every (Without sep) (onto_first c ps)
  onto_first-Every c [] n h = ((n, tt), tt)
  onto_first-Every c (p ∷ ps) n (h, hs) = ((n, h), hs)

  pub pieces-Every : (s : List ℕ) → Every (Without sep) (pieces s)
  unfolding pieces
  pieces-Every [] = (tt, tt)
  pieces-Every (c ∷ s) = elim (Bool-cases (c == sep)) [
    | inl at_sep ↦ rw at_sep (tt, pieces-Every s)
    | inr inside ↦
        rw inside
          (onto_first-Every c (pieces s) (ground (arith, nat_beq_iff c sep)) (pieces-Every s))
  ]

  -- What holds of the separator and of all in the pieces holds of all in the whole.
  pub join-Every {κ} :
      (P : ℕ → Type κ) → P sep → (ps : List (List ℕ)) → Every (Every P) ps → Every P (join ps)
  unfolding join
  join-Every P at_sep [] h = tt
  join-Every P at_sep (p ∷ []) (h, _) = h
  join-Every P at_sep (p ∷ (q ∷ ps)) (h, hs) =
      Every-append P p (sep ∷ join (q ∷ ps)) h (at_sep, join-Every P at_sep (q ∷ ps) hs)

  pub join-ne-nil : (ps : List (List ℕ)) → join ps ≢ [] → ps ≢ []
  unfolding join
  join-ne-nil [] h e = h refl
  join-ne-nil (p ∷ ps) h e = cc
