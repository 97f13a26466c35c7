-- ===== src/Controller/Command/Reference.antt =====
-- What `eval` computes: the text read once from left to right.
use mathlib.Core.List.{append_assoc}
use mathlib.Core.Path.{subst}
use mathlib.Core.Option
use io_scheduler.Prelude.{
  ℕ, zero, suc, ◌+◌, ◌-◌, ◌<◌, ◌≡◌, refl, sym, ap, ◌∙◌, none, some, List, [], ◌∷◌, ◌++◌, arith,
  length, Option-cases, inl, inr,
}
use io_scheduler.Prelude.Bytes.{take, drop, drop-drop, length-drop}
use io_scheduler.Prelude.Text.{Every}
use io_scheduler.Types.{Bytes}
use io_scheduler.Controller.Command.{
  Command, Replacements, key_at, first_match, shift, eval_loop, eval, eval_malleability,
  with_cmdline, replacements, malleability_replacements,
}

-- Every keyword is replaced where it stands, and the text that replaces it is not read again; the
-- number is that of the bytes still to be passed over.
unfoldable pub substitute : Replacements → ℕ → Bytes → Bytes
substitute table skip [] = []
substitute table (suc skip) (c ∷ s) = substitute table skip s
substitute table zero (c ∷ s) = elim (key_at table (c ∷ s)) [
  | none ↦ c ∷ substitute table zero s
  | some (key, value) ↦ value ++ substitute table (length key - 1) s
]

abbrev pub HasKeys : Replacements → Type 0
HasKeys = Every (λ entry. 0 < length entry.0)

substitute-drop :
    (table : Replacements) (skip : ℕ) (s : Bytes)
    → substitute table skip s ≡ substitute table 0 (drop skip s)
unfolding substitute
substitute-drop table zero s = refl
substitute-drop table (suc skip) [] = refl
substitute-drop table (suc skip) (c ∷ s) = substitute-drop table skip s

key_at-pos :
    (table : Replacements) (s key value : Bytes)
    → HasKeys table
    → key_at table s ≡ some (key, value)
    → 0 < length key
unfolding key_at
key_at-pos [] s key value h e = absurd (cc e)
key_at-pos ((k, v) ∷ table) s key value (hk, h) e = ground (arith, key_at-pos table s key value h)

drop_pos : (n c : ℕ) (s : Bytes) → 0 < n → drop n (c ∷ s) ≡ drop (n - 1) s
drop_pos zero c s h = absurd (omega arith)
drop_pos (suc n) c s h = ground arith

-- Where a keyword begins.
pub substitute_at :
    (table : Replacements) (c : ℕ) (s key value : Bytes)
    → 0 < length key
    → key_at table (c ∷ s) ≡ some (key, value)
    → substitute table 0 (c ∷ s) ≡ value ++ substitute table 0 (drop (length key) (c ∷ s))
unfolding substitute
substitute_at table c s key value h at =
    rw (at, substitute)
      (ap (λ t. value ++ t)
        (substitute-drop table (length key - 1) s
          ∙ ap (substitute table 0) (sym (drop_pos (length key) c s h))))

-- The text up to a match stays, and the text after the match is read on.
abbrev Replaced : Replacements → Bytes → ℕ × Bytes × Bytes → Type 0
Replaced table s (offset, key, value) =
    (substitute table 0 s
      ≡ take offset s ++ value ++ substitute table 0 (drop (offset + length key) s))
    × (0 < length key)
    × (offset < length s)

abbrev Match : Type 0
Match = ℕ × Bytes × Bytes

Replaced-shift :
    (table : Replacements) (c : ℕ) (s : Bytes) (m : Match)
    → key_at table (c ∷ s) ≡ none
    → Replaced table s m
    → Replaced table (c ∷ s) (shift m)
unfolding substitute
Replaced-shift table c s (i, k, v) away (rest, long, bound) =
    let onward : suc i + length k ≡ suc (i + length k) = omega arith in
    (rw onward (rw (away, substitute) (ap (λ t. c ∷ t) rest)), long, omega arith)

substitute-first_match :
    (table : Replacements) (s : Bytes) (m : Match)
    → HasKeys table
    → first_match table s ≡ some m
    → Replaced table s m
unfolding first_match
substitute-first_match table [] m h e = absurd (cc e)
substitute-first_match table (c ∷ s) m h e = elim (Option-cases (key_at table (c ∷ s))) [
  | inr ((k, v), at) ↦
      (let long = key_at-pos table (c ∷ s) k v h at in
        let here = substitute_at table c s k v long at in
        let same : ◌≡◌ {A = Match} (0, k, v) m = ground (arith, at) in
        let none_before : 0 + length k ≡ length k = omega arith in
        subst (Replaced table (c ∷ s)) same (rw none_before here, long, omega arith))
  | inl away ↦ elim (Option-cases (first_match table s)) [
    | inl nowhere ↦ absurd (ground (arith, away, nowhere))
    | inr (n, later) ↦
        (let same : shift n ≡ m = ground (arith, away, later) in
          subst (Replaced table (c ∷ s)) same
            (Replaced-shift table c s n away (substitute-first_match table s n h later)))
  ]
]

substitute-none :
    (table : Replacements) (s : Bytes) → first_match table s ≡ none → substitute table 0 s ≡ s
unfolding first_match substitute
substitute-none table [] e = refl
substitute-none table (c ∷ s) e = ground (arith, substitute-none table s)

eval_loop_step :
    (rounds : ℕ) (table : Replacements) (cmdline : Bytes) (last_pos : ℕ) (done : Bytes) (m : Match)
    → first_match table (drop last_pos cmdline) ≡ some m
    → eval_loop (suc rounds) table cmdline last_pos done
      ≡ eval_loop rounds table cmdline
          (last_pos + (m.0 + length m.1))
          (done ++ take m.0 (drop last_pos cmdline) ++ m.2)
unfolding eval_loop
eval_loop_step rounds table cmdline last_pos done (i, k, v) e =
    rw (e, eval_loop)
      (let p : last_pos + i + length k ≡ last_pos + (i + length k) = omega arith in rw p refl)

-- From a position in the text, with a round for each byte to come and one more, the loop ends and adds
-- what the rest of the text becomes.
eval_loop_lem :
    (rounds : ℕ) (table : Replacements) (cmdline : Bytes) (last_pos : ℕ) (done : Bytes)
    → HasKeys table
    → length (drop last_pos cmdline) < rounds
    → eval_loop rounds table cmdline last_pos done
      ≡ some (done ++ substitute table 0 (drop last_pos cmdline))
unfolding eval_loop
eval_loop_lem zero table cmdline last_pos done keys h = absurd (omega arith)
eval_loop_lem (suc rounds) table cmdline last_pos done keys h =
    elim (Option-cases (first_match table (drop last_pos cmdline))) [
      | inl nowhere ↦
          rw (nowhere, eval_loop)
            (ap (λ t. some (done ++ t))
              (sym (substitute-none table (drop last_pos cmdline) nowhere)))
      | inr ((i, k, v), e) ↦
          (let (rest, long, bound) =
              substitute-first_match table (drop last_pos cmdline) (i, k, v) keys e in
            let onward = drop-drop last_pos (i + length k) cmdline in
            let later : length (drop (last_pos + (i + length k)) cmdline) < rounds =
              omega (arith, ap length onward, length-drop (i + length k) (drop last_pos cmdline)) in
            eval_loop_step rounds table cmdline last_pos done (i, k, v) e
            ∙ eval_loop_lem rounds table cmdline (last_pos + (i + length k))
                (done ++ take i (drop last_pos cmdline) ++ v) keys later
            ∙ ap some (rw (rest, ← onward) (simp append_assoc)))
    ]

-- `eval` ends, on every command line, with the text in which every keyword is replaced where it
-- stands, read from left to right, and with the same environment; so does the `eval` without a
-- directory, for which `{ADHOC_DIRECTORY}` is no keyword.
pub eval-eq-substitute :
    (c : Command) (adhoc_id directory : Bytes) (nodes : List Bytes)
    → (eval c adhoc_id directory nodes
        ≡ some (with_cmdline c (substitute (replacements adhoc_id directory nodes) 0 c.cmdline)))
      × (eval_malleability c adhoc_id nodes
          ≡ some
              (with_cmdline c (substitute (malleability_replacements adhoc_id nodes) 0 c.cmdline)))
unfolding eval eval_malleability
eval-eq-substitute c adhoc_id directory nodes = (
  ap (Option.map (with_cmdline c)) (
      eval_loop_lem (length c.cmdline + 1) (replacements adhoc_id directory nodes) c.cmdline 0 []
        (unfold replacements in omega arith) (omega arith)),
  ap (Option.map (with_cmdline c)) (
      eval_loop_lem (length c.cmdline + 1) (malleability_replacements adhoc_id nodes) c.cmdline 0 []
        (unfold malleability_replacements in omega arith) (omega arith)),
)
