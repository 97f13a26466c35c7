-- ===== src/Plugin/Jobs/Steps.antt =====
-- Rules for the steps of the registration and the removal of a job.
use io_scheduler.Prelude.{◌≡◌, refl, ◌∙◌, Option, none, some}
use io_scheduler.Utils.Routes.{ReturnCode}
use io_scheduler.Client.{Ended, returns, terminates}
use io_scheduler.Types.{Bytes}
use io_scheduler.Plugin.Nodes.{Address, address, no_address, null_read}
use io_scheduler.Plugin.World.{
  World, Step, continues, fails, crashes, no_end, Act, then_step, used, needed, wanted_address,
  any_address, expect, expect_waited,
}

-- What holds of a step that goes on.
abbrev pub After : {S A : Type 0} → (A → World S → Type 0) → Step S A → Type 0
After Q (continues a w) = Q a w
After Q _ = Unit

pub after_any :
    {S A B : Type 0} (Q : B → World S → Type 0) (m : Step S A) (f : A → Act S B)
    → ((a : A) (w : World S) → After Q (f a w))
    → After Q (then_step m f)
after_any Q (continues a w) f h = h a w
after_any Q (fails w) f h = tt
after_any Q crashes f h = tt
after_any Q no_end f h = tt

pub after_then :
    {S A B : Type 0} (P : A → World S → Type 0) (Q : B → World S → Type 0) (m : Step S A)
    (f : A → Act S B)
    → After P m
    → ((a : A) (w : World S) → P a w → After Q (f a w))
    → After Q (then_step m f)
after_then P Q (continues a w) f p h = h a w p
after_then P Q (fails w) f p h = tt
after_then P Q crashes f p h = tt
after_then P Q no_end f p h = tt

-- The variables that the removal uses are as they were.
abbrev pub Keeps : {S A : Type 0} → World S → A → World S → Type 0
Keeps w a w' =
    (w'.adhoc_storage ≡ w.adhoc_storage)
    × (w'.scord_reqs ≡ w.scord_reqs)
    × (w'.scord_job ≡ w.scord_job)

pub Keeps-trans : {S : Type 0} (w w1 w2 : World S) → Keeps w tt w1 → Keeps w1 tt w2 → Keeps w tt w2
Keeps-trans w w1 w2 (a, b, d) (a', b', d') = (a' ∙ a, b' ∙ b, d' ∙ d)

pub after_weaken :
    {S A : Type 0} (P Q : A → World S → Type 0) (m : Step S A)
    → After P m
    → ((a : A) (w : World S) → P a w → Q a w)
    → After Q m
after_weaken P Q (continues a w) p h = h a w p
after_weaken P Q (fails w) p h = tt
after_weaken P Q crashes p h = tt
after_weaken P Q no_end p h = tt

pub used-Keeps : {S A : Type 0} (o : Option A) (w : World S) → After (Keeps w) (used o w)
used-Keeps none w = tt
used-Keeps (some a) w = (refl, refl, refl)

pub expect-Keeps :
    {S A : Type 0} (answer : S × Ended (ReturnCode × Option A)) (w : World S)
    → After (Keeps w) (expect answer w)
expect-Keeps (s, returns (ReturnCode.success, some a)) w = (refl, refl, refl)
expect-Keeps (s, returns (code, a)) w = tt
expect-Keeps (s, terminates) w = tt

pub expect_waited-Keeps :
    {S A : Type 0} (answer : Option (S × Ended (ReturnCode × Option A))) (w : World S)
    → After (Keeps w) (expect_waited answer w)
expect_waited-Keeps none w = tt
expect_waited-Keeps (some (s, returns (ReturnCode.success, a))) w = (refl, refl, refl)
expect_waited-Keeps (some (s, returns (code, a))) w = tt
expect_waited-Keeps (some (s, terminates)) w = tt

-- A pointer or an address that is used leaves the world as it was.
pub after_used :
    {S A B : Type 0} (Q : B → World S → Type 0) (o : Option A) (w : World S) (f : A → Act S B)
    → ((a : A) → o ≡ some a → After Q (f a w))
    → After Q (then_step (used o w) f)
after_used Q none w f h = tt
after_used Q (some a) w f h = h a refl

pub after_needed :
    {S A B : Type 0} (Q : B → World S → Type 0) (o : Option A) (w : World S) (f : A → Act S B)
    → ((a : A) → o ≡ some a → After Q (f a w))
    → After Q (then_step (needed o w) f)
after_needed Q none w f h = tt
after_needed Q (some a) w f h = h a refl

pub after_wanted_address :
    {S B : Type 0} (Q : B → World S → Type 0) (a : Address) (w : World S) (f : Bytes → Act S B)
    → ((b : Bytes) → a ≡ address b → After Q (f b w))
    → After Q (then_step (wanted_address a w) f)
after_wanted_address Q (address b) w f h = h b refl
after_wanted_address Q no_address w f h = tt
after_wanted_address Q null_read w f h = tt

pub after_any_address :
    {S B : Type 0} (Q : B → World S → Type 0) (a : Address) (w : World S)
    (f : Option Bytes → Act S B)
    → ((b : Bytes) → a ≡ address b → After Q (f (some b) w))
    → After Q (f none w)
    → After Q (then_step (any_address a w) f)
after_any_address Q (address b) w f h without = h b refl
after_any_address Q no_address w f h without = without
after_any_address Q null_read w f h without = tt
