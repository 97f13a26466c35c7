-- ===== src/Utils/Split.antt =====
-- `split` of src/lib/utils.cpp, and what it computes.
use mathlib.Core.Option
use mathlib.Core.List.{append_assoc}
use io_scheduler.Prelude.{
  ℕ, zero, suc, ◌+◌, ◌-◌, ◌<◌, ◌≡◌, refl, sym, ap, ◌∙◌, Option, none, some, List, [], ◌∷◌, ◌++◌,
  arith, length, ◌==◌, nat_key, if◌then◌else◌, inl, inr, Option-cases, Bool-cases,
}
use io_scheduler.Prelude.Bytes.{take, drop, drop-drop, length-drop}
use io_scheduler.Prelude.Text.{pieces}
use io_scheduler.Types.{Bytes}

-- Where a byte stands first.
index : ℕ → Bytes → Option ℕ
index sep [] = none
index sep (c ∷ s) = let rest = Option.map suc (index sep s) in if c == sep then some 0 else rest

-- `text.find(sep, start)`; `none` is `npos`.
find_from : Bytes → ℕ → ℕ → Option ℕ
unfolding index
find_from text sep start = Option.map (λ i. start + i) (index sep (drop start text))

-- The loop, with the number of rounds that it may still make; `none` means that they ran out.
split_loop : ℕ → Bytes → ℕ → ℕ → List Bytes → Option (List Bytes)
unfolding find_from
split_loop zero text sep start tokens = none
split_loop (suc rounds) text sep start tokens = elim (find_from text sep start) [
  | some end ↦
      split_loop rounds text sep (end + 1) (tokens ++ take (end - start) (drop start text) ∷ [])
  | none ↦ some (tokens ++ drop start text ∷ [])
]

-- A text of n bytes takes n + 1 rounds at most.
unfoldable pub split : Bytes → ℕ → Option (List Bytes)
unfolding split_loop
split text sep = split_loop (length text + 1) text sep 0 []

-- Up to its first separator a text is its first piece.
pieces-index :
    (sep : ℕ) (s : Bytes) (i : ℕ)
    → index sep s ≡ some i
    → (pieces sep s ≡ take i s ∷ pieces sep (drop (suc i) s)) × (i < length s)
unfolding index pieces
pieces-index sep [] i e = absurd (cc e)
pieces-index sep (c ∷ s) zero e = elim (Option-cases (index sep s)) [
  | inl e' ↦ (ground (arith, e'), ground arith)
  | inr (j, at) ↦ (ground (arith, at), ground arith)
]
pieces-index sep (c ∷ s) (suc i) e = elim (Bool-cases (c == sep)) [
  | inl at_sep ↦ absurd (ground (arith, at_sep))
  | inr inside ↦
      (let inner : index sep s ≡ some i = ground (arith, inside) in
        let (first, bound) = pieces-index sep s i inner in
        (rw (inside, first) refl, omega (arith, bound)))
]

pieces_no_index : (sep : ℕ) (s : Bytes) → index sep s ≡ none → pieces sep s ≡ s ∷ []
unfolding index pieces
pieces_no_index sep [] e = refl
pieces_no_index sep (c ∷ s) e = ground (arith, pieces_no_index sep s)

split_loop_step :
    (rounds : ℕ) (text : Bytes) (start : ℕ) (sep : ℕ) (tokens : List Bytes) (i : ℕ)
    → index sep (drop start text) ≡ some i
    → split_loop (suc rounds) text sep start tokens
      ≡ split_loop rounds text sep (start + suc i) (tokens ++ take i (drop start text) ∷ [])
unfolding split_loop find_from
split_loop_step rounds text start sep tokens i e =
    rw (e, split_loop, find_from)
      (let p : start + i + 1 ≡ start + suc i = omega arith in
        let q : start + i - start ≡ i = omega arith in rw (p, q) refl)

split_loop_last :
    (rounds : ℕ) (text : Bytes) (start : ℕ) (sep : ℕ) (tokens : List Bytes)
    → index sep (drop start text) ≡ none
    → split_loop (suc rounds) text sep start tokens ≡ some (tokens ++ drop start text ∷ [])
unfolding split_loop find_from
split_loop_last rounds text start sep tokens e = ground (arith, e)

-- From a start inside the text, with a round for each byte to come and one more, the loop ends and
-- adds the pieces of what is to come.
split_loop_lem :
    (rounds : ℕ) (text : Bytes) (start : ℕ) (sep : ℕ) (tokens : List Bytes)
    → length (drop start text) < rounds
    → split_loop rounds text sep start tokens ≡ some (tokens ++ pieces sep (drop start text))
unfolding split_loop
split_loop_lem zero text start sep tokens h = absurd (omega arith)
split_loop_lem (suc rounds) text start sep tokens h =
    elim (Option-cases (index sep (drop start text))) [
      | inl e ↦
          (split_loop_last rounds text start sep tokens e)
          ∙ ap (λ t. some (tokens ++ t)) (sym (pieces_no_index sep (drop start text) e))
      | inr (i, e) ↦
          (let (first, bound) = pieces-index sep (drop start text) i e in
            let onward = drop-drop start (suc i) text in
            let later : length (drop (start + suc i) text) < rounds =
              omega (arith, ap length onward, length-drop (suc i) (drop start text)) in
            split_loop_step rounds text start sep tokens i e
            ∙ split_loop_lem rounds text (start + suc i) sep
                (tokens ++ take i (drop start text) ∷ []) later
            ∙ rw (first, ← onward) (ap some (append_assoc tokens _ _)))
    ]

-- `split` ends, on every text and separator, with the texts between the separators.
pub split-eq-pieces : (text : Bytes) (sep : ℕ) → split text sep ≡ some (pieces sep text)
unfolding split
split-eq-pieces text sep = split_loop_lem (length text + 1) text 0 sep [] (omega arith)
