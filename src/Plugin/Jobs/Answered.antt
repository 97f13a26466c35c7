-- ===== src/Plugin/Jobs/Answered.antt =====
-- A call of the client library whose result plugins/slurm/slurmadmcli.c expects to be a success: what the
-- daemon has answered.
use io_scheduler.Prelude.{ℕ, ◌≡◌, refl, Bool, true, false, Option, none, some}
use io_scheduler.Types.{ErrorCode, is_success}
use io_scheduler.Network.{Response}
use io_scheduler.Utils.Routes.{ReturnCode}
use io_scheduler.Client.{returns, call, then_value}
use io_scheduler.Client.Capi.{return_code, stored}
use io_scheduler.Plugin.World.{World, expect}
use io_scheduler.Plugin.Jobs.Steps.{After}

-- The daemon has answered a call with a number.
abbrev pub IsAnswered : {S : Type 0} → S × Option (Response ℕ) → S → ℕ → Type 0
IsAnswered reply s' id =
    (resp : Response ℕ) × (reply ≡ (s', some resp))
    × (is_success resp.error_code ≡ true)
    × (resp.value ≡ some id)

expect_error :
    {S A : Type 0} (Q : A → World S → Type 0) (s : S) (code : ReturnCode) (w : World S)
    → After Q (expect (s, returns (code, none)) w)
expect_error Q s ReturnCode.success w = tt
expect_error Q s code w = tt

module _ {S B : Type 0} (make : ℕ → B) (w : World S) where
  abbrev pub Makes : S × Option (Response ℕ) → B → World S → Type 0
  Makes reply b w' =
      (s' : S) × (id : ℕ) × IsAnswered reply s' id × (b ≡ make id) × (w' ≡ record w { daemon = s' })

  abbrev replied : ℕ → ErrorCode → Option ℕ → S → S × Option (Response ℕ)
  replied op ec value s' = (s', some (record { op_id = op; error_code = ec; value = value }))

  expect_value :
      (logging : Bool) (ec : ErrorCode) (ok : Bool) (op : ℕ) (value : Option ℕ) (s' : S)
      → is_success ec ≡ ok
      → After
          (Makes (replied op ec value s'))
          (expect (stored (then_value logging make (replied op ec value s'))) w)
  expect_value true ec ok op none s' e = tt
  expect_value false ec true op none s' e = rw e tt
  expect_value false ec false op none s' e =
      rw e (expect_error (Makes (replied op ec none s')) s' (return_code ec) w)
  expect_value logging ec true op (some id) s' e =
      rw e (
        s',
        id,
        (record { op_id = op; error_code = ec; value = some id }, refl, e, refl),
        refl,
        refl,
      )
  expect_value logging ec false op (some id) s' e =
      rw e (expect_error (Makes (replied op ec (some id) s')) s' (return_code ec) w)

  expect_reply :
      (logging : Bool) (reply : S × Option (Response ℕ))
      → After (Makes reply) (expect (stored (then_value logging make reply)) w)
  expect_reply logging (s', none) = tt
  expect_reply logging (s', some resp) =
      expect_value logging resp.error_code (is_success resp.error_code) resp.op_id resp.value s'
        refl

  -- A call through the client and the C API that succeeds was answered with a number.
  pub expect_made :
      (logging found : Bool) (procedure : S → S × Option (Response ℕ)) (s : S)
      → After
          (Makes (procedure s))
          (expect (stored (then_value logging make (call found procedure s))) w)
  expect_made logging true procedure s = expect_reply logging (procedure s)
  expect_made logging false procedure s = tt
