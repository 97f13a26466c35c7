-- ===== src/Controller/Config/Loops.antt =====
-- Rules for what a function of the configuration file loads: sequence, branch, loop and map.
use mathlib.Core.Path.{subst}
use io_scheduler.Prelude.{
  ◌≡◌, inl, inr, refl, sym, Bool, true, false, none, some, List, [], ◌∷◌, arith, Option-cases,
  if◌then◌else◌,
}
use io_scheduler.Prelude.Map.{emplace, find}
use io_scheduler.Prelude.Text.{Every}
use io_scheduler.Types.{AdhocType}
use io_scheduler.Controller.Config.{
  Loaded, loaded, throws, undefined, ◌>>=◌, each, AdhocConfig, ConfigMap, type_key,
}

loaded-injective {ℓ} : {A : Type ℓ} {a b : A} → loaded a ≡ loaded b → a ≡ b
loaded-injective e = cc

-- What is loaded has the property.
abbrev pub Ensures {ℓ κ} : {A : Type ℓ} → (A → Type κ) → Loaded A → Type (ℓ ⊔ κ)
Ensures {A} P m = (a : A) → m ≡ loaded a → P a

pub Ensures-loaded {ℓ κ} : {A : Type ℓ} (P : A → Type κ) (a : A) → P a → Ensures P (loaded a)
Ensures-loaded P a h b e = subst P (loaded-injective e) h

pub Ensures-bind {ℓ κ μ ν} :
    {A : Type ℓ} {B : Type κ} (P : A → Type μ) (Q : B → Type ν) (m : Loaded A) (f : A → Loaded B)
    → Ensures P m
    → ((a : A) → P a → Ensures Q (f a))
    → Ensures Q (m >>= f)
Ensures-bind P Q (loaded a) f h k = k a (h a refl)
Ensures-bind P Q (throws p) f h k = λ b e. absurd (cc e)
Ensures-bind P Q undefined f h k = λ b e. absurd (cc e)

pub Ensures-if {ℓ κ} :
    {A : Type ℓ} (P : A → Type κ) (b : Bool) (m n : Loaded A)
    → Ensures P m
    → Ensures P n
    → Ensures P (if b then m else n)
Ensures-if P true m n h k = h
Ensures-if P false m n h k = k

pub each_inv {ℓ κ μ} :
    {N : Type ℓ} {S : Type κ} (P : S → Type μ) (step : S → N → Loaded S)
    → ((s : S) (n : N) → P s → Ensures P (step s n))
    → (ns : List N) (s : S) → P s
    → Ensures P (each step ns s)
unfolding each
each_inv P step keeps [] s h = Ensures-loaded P s h
each_inv P step keeps (n ∷ ns) s h =
    Ensures-bind P P (step s n) (each step ns) (keeps s n h) (λ a k. each_inv P step keeps ns a k)

pub emplace-Every {κ} :
    (P : AdhocType × AdhocConfig → Type κ) (type : AdhocType) (config : AdhocConfig)
    (configs : ConfigMap)
    → P (type, config)
    → Every P configs
    → Every P (emplace type config configs).0
emplace-Every P type config configs h k = elim (Option-cases (find type configs)) [
  | inl absent ↦ subst (Every P) (sym (emplace_absent absent)) (h, k)
  | inr (other, present) ↦ subst (Every P) (sym (emplace_present present)) k
]
  where
    emplace_absent :
        find type configs ≡ none → (emplace type config configs).0 ≡ (type, config) ∷ configs
    emplace_absent e = unfold emplace in ground (arith, e)

    emplace_present :
        {other : AdhocConfig}
        → find type configs ≡ some other
        → (emplace type config configs).0 ≡ configs
    emplace_present e = unfold emplace in ground (arith, e)
