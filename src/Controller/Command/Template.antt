-- ===== src/Controller/Command/Template.antt =====
-- Command lines as words with keywords between literal texts, and the arguments that come of them.
use mathlib.Core.List.{append_assoc, append-nil}
use mathlib.Core.Option
use io_scheduler.Prelude.{
  ◌≡◌, ◌≢◌, refl, sym, ap, ◌∙◌, Option, some, List, [], ◌∷◌, ◌++◌, map, arith,
}
use io_scheduler.Prelude.Bytes.{codes, starts_with}
use io_scheduler.Prelude.Text.{
  Every, Every-append, Without, join, join-Every, join-ne-nil, pieces, pieces-join,
}
use io_scheduler.Types.{Bytes}
use io_scheduler.Controller.Command.{
  Command, Replacements, key_at, eval, with_cmdline, replacements, quoted, as_vector,
}
use io_scheduler.Controller.Environment.{Environment}
use io_scheduler.Controller.Command.Reference.{substitute, substitute_at, eval-eq-substitute}

pub data Keyword : Type 0 where
  directory adhoc_id nodes : Keyword

abbrev pub keyword_text : Keyword → Bytes
keyword_text directory = codes "{ADHOC_DIRECTORY}"
keyword_text adhoc_id = codes "{ADHOC_ID}"
keyword_text nodes = codes "{ADHOC_NODES}"

abbrev pub meaning : Bytes → Bytes → List Bytes → Keyword → Bytes
meaning id path hosts directory = path
meaning id path hosts adhoc_id = id
meaning id path hosts nodes = quoted hosts

-- A word: keywords, each with the literal text before it, and the literal text at the end.
pub record Word : Type 0 where
  pub keywords : List (Bytes × Keyword)
  pub last : Bytes

abbrev pub fill_keywords : (Keyword → Bytes) → List (Bytes × Keyword) → Bytes → Bytes
fill_keywords f [] last = last
fill_keywords f ((before, k) ∷ rest) last = before ++ (f k ++ fill_keywords f rest last)

abbrev pub fill : (Keyword → Bytes) → Word → Bytes
fill f word = fill_keywords f word.keywords word.last

-- The literal texts have no opening brace and no space.
abbrev pub IsLiteral : Bytes → Type 0
IsLiteral s = Without b'{' s × Without b' ' s

abbrev pub HasLiterals : Word → Type 0
HasLiterals word = Every (λ part. IsLiteral part.0) word.keywords × IsLiteral word.last

module _ (id path : Bytes) (hosts : List Bytes) where
  -- The table in use.
  abbrev table : Replacements
  table = replacements id path hosts

  substitute_literal :
      (s rest : Bytes)
      → Without b'{' s
      → substitute table 0 (s ++ rest) ≡ s ++ substitute table 0 rest
  unfolding substitute replacements key_at starts_with
  substitute_literal [] rest h = refl
  substitute_literal (c ∷ s) rest (hc, h) = ground (arith, substitute_literal s rest h)

  substitute_keyword :
      (k : Keyword) (rest : Bytes)
      → substitute table 0 (keyword_text k ++ rest)
        ≡ meaning id path hosts k ++ substitute table 0 rest
  unfolding replacements key_at starts_with
  substitute_keyword directory rest = substitute_at table _ _ _ _ (omega arith) refl
  substitute_keyword adhoc_id rest = substitute_at table _ _ _ _ (omega arith) refl
  substitute_keyword nodes rest = substitute_at table _ _ _ _ (omega arith) refl

  substitute_keywords :
      (ks : List (Bytes × Keyword)) (last rest : Bytes)
      → Every (λ part. IsLiteral part.0) ks
      → IsLiteral last
      → substitute table 0 (fill_keywords keyword_text ks last ++ rest)
        ≡ fill_keywords (meaning id path hosts) ks last ++ substitute table 0 rest
  substitute_keywords [] last rest h (l, _) = substitute_literal last rest l
  substitute_keywords ((before, k) ∷ ks) last rest ((b, _), h) l =
      ap (substitute table 0) (regroup keyword_text)
      ∙ substitute_literal before _ b
      ∙ ap (λ t. before ++ t)
          (substitute_keyword k _
            ∙ ap (λ t. meaning id path hosts k ++ t) (substitute_keywords ks last rest h l))
      ∙ sym (regroup_with (meaning id path hosts))
    where
      regroup :
          (f : Keyword → Bytes)
          → fill_keywords f ((before, k) ∷ ks) last ++ rest
            ≡ before ++ (f k ++ (fill_keywords f ks last ++ rest))
      regroup f = simp append_assoc

      regroup_with :
          (f : Keyword → Bytes)
          → fill_keywords f ((before, k) ∷ ks) last ++ substitute table 0 rest
            ≡ before ++ (f k ++ (fill_keywords f ks last ++ substitute table 0 rest))
      regroup_with f = simp append_assoc

  -- The words of a line, each between two spaces.
  substitute_line :
      (words : List Word)
      → Every HasLiterals words
      → substitute table 0 (join b' ' (map (fill keyword_text) words))
        ≡ join b' ' (map (fill (meaning id path hosts)) words)
  unfolding join
  substitute_line [] h = unfold substitute in refl
  substitute_line (w ∷ []) ((k, l), _) =
      ap (substitute table 0) (sym (append-nil (fill keyword_text w)))
      ∙ substitute_keywords w.keywords w.last [] k l
      ∙ (unfold substitute in append-nil (fill (meaning id path hosts) w))
  substitute_line (w ∷ (v ∷ words)) ((k, l), h) =
      substitute_keywords w.keywords w.last _ k l
      ∙ ap (λ t. fill (meaning id path hosts) w ++ t)
          (substitute_literal (b' ' ∷ []) _ (omega arith)
            ∙ ap (λ t. b' ' ∷ t) (substitute_line (v ∷ words) h))

  fill_keywords-Without :
      (ks : List (Bytes × Keyword)) (last : Bytes)
      → ((k : Keyword) → Without b' ' (meaning id path hosts k))
      → Every (λ part. IsLiteral part.0) ks
      → IsLiteral last
      → Without b' ' (fill_keywords (meaning id path hosts) ks last)
  fill_keywords-Without [] last m h l = l.1
  fill_keywords-Without ((before, k) ∷ ks) last m ((_, b), h) l =
      Every-append (λ c. c ≢ b' ') before _ b
        (Every-append (λ c. c ≢ b' ') (meaning id path hosts k) _ (m k)
          (fill_keywords-Without ks last m h l))

  fill-Without :
      (words : List Word)
      → ((k : Keyword) → Without b' ' (meaning id path hosts k))
      → Every HasLiterals words
      → Every (Without b' ') (map (fill (meaning id path hosts)) words)
  fill-Without [] m h = tt
  fill-Without (w ∷ words) m ((k, l), h) =
      (fill_keywords-Without w.keywords w.last m k l, fill-Without words m h)

meaning-Without :
    (id path : Bytes) (hosts : List Bytes)
    → Without b' ' id
    → Without b' ' path
    → Every (Without b' ') hosts
    → (k : Keyword) → Without b' ' (meaning id path hosts k)
meaning-Without id path hosts i p h directory = p
meaning-Without id path hosts i p h adhoc_id = i
meaning-Without id path hosts i p h nodes = (
  omega arith,
  Every-append (λ c. c ≢ b' ') (join b',' hosts) _
      (join-Every b',' (λ c. c ≢ b' ') (omega arith) hosts h) (omega arith),
)

as_vector-ne_nil :
    (line : Bytes) (env : Option Environment)
    → line ≢ []
    → as_vector (record { cmdline = line; env = env }) ≡ pieces b' ' line
unfolding as_vector
as_vector-ne_nil [] env h = absurd (h refl)
as_vector-ne_nil (c ∷ line) env h = refl

-- The arguments of a command line whose words hold keywords: the words, with every keyword replaced
-- by its value; this holds where no literal text has an opening brace or a space, no value has a
-- space, and the line is not empty once the keywords are replaced.
pub eval-as_vector :
    (words : List Word) (env : Option Environment) (id path : Bytes) (hosts : List Bytes)
    → Every HasLiterals words
    → Without b' ' id
    → Without b' ' path
    → Every (Without b' ') hosts
    → join b' ' (map (fill (meaning id path hosts)) words) ≢ []
    → Option.map as_vector (
        eval
          (record { cmdline = join b' ' (map (fill keyword_text) words); env = env })
          id
          path
          hosts)
      ≡ some (map (fill (meaning id path hosts)) words)
eval-as_vector words env id path hosts literal i p h ne =
    let c : Command = record { cmdline = join b' ' (map (fill keyword_text) words); env = env } in
    ap (Option.map as_vector) (eval-eq-substitute c id path hosts).0
    ∙ ap some (
        ap (λ t. as_vector (with_cmdline c t)) (substitute_line id path hosts words literal)
        ∙ as_vector-ne_nil _ env ne
        ∙ pieces-join b' ' _ (join-ne-nil b' ' _ ne)
            (fill-Without id path hosts words (meaning-Without id path hosts i p h) literal))
