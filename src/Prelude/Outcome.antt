-- ===== src/Prelude/Outcome.antt =====
-- What a run of C++ code may come to: a value, a crash (a null pointer read, an exception that
-- nothing catches), or, for a model on fuel, no result within the fuel.
use mathlib.Core.Path.{◌≡◌, refl}
use mathlib.Core.Logic.{◌≢◌}
use mathlib.Core.Bool.{Bool, true, false}
use istatserverlinux.Prelude.Tests.{if◌then◌else◌}
use mathlib.Core.Option.{Option, none, some}

pub data Outcome {ℓ} (A : Type ℓ) : Type ℓ where
  done : A → Outcome A
  crash : Outcome A
  no_fuel : Outcome A

infixl 5 ◌>>=◌
abbrev pub ◌>>=◌ {ℓ κ} : {A : Type ℓ} {B : Type κ} → Outcome A → (A → Outcome B) → Outcome B
done a >>= f = f a
crash >>= f = crash
no_fuel >>= f = no_fuel

-- A null pointer is read.
abbrev pub deref {ℓ} : {A : Type ℓ} → Option A → Outcome A
deref none = crash
deref (some a) = done a

pub >>=-eq-done {ℓ κ} :
    {A : Type ℓ} {B : Type κ} (m : Outcome A) (f : A → Outcome B) {b : B}
    → (m >>= f) ≡ done b
    → (a : A) × (m ≡ done a) × (f a ≡ done b)
>>=-eq-done (done a) f h = (a, refl, h)
>>=-eq-done crash f h = cc
>>=-eq-done no_fuel f h = cc

pub deref-eq-done {ℓ} : {A : Type ℓ} (o : Option A) {a : A} → deref o ≡ done a → o ≡ some a
deref-eq-done none h = cc
deref-eq-done (some b) h = cc

-- The run comes to an end within its fuel.
pub data Ends {ℓ} {A : Type ℓ} : Outcome A → Type ℓ where
  ends_done : (a : A) → Ends (done a)
  ends_crash : Ends crash

module _ {ℓ} {A : Type ℓ} where
  pub Ends-ne : {m : Outcome A} → Ends m → m ≢ no_fuel
  Ends-ne (ends_done a) = λ e. cc
  Ends-ne ends_crash = λ e. cc

  pub not-Ends : ¬ Ends {A = A} no_fuel
  not-Ends h = Ends-ne h refl

  pub ne-Ends : (m : Outcome A) → m ≢ no_fuel → Ends m
  ne-Ends (done a) h = ends_done a
  ne-Ends crash h = ends_crash
  ne-Ends no_fuel h = absurd (h refl)

  pub Ends-deref : (o : Option A) → Ends (deref o)
  Ends-deref none = ends_crash
  Ends-deref (some a) = ends_done a

  pub Ends-if : (b : Bool) (m n : Outcome A) → Ends m → Ends n → Ends (if b then m else n)
  Ends-if true m n hm hn = hm
  Ends-if false m n hm hn = hn

pub Ends-bind {ℓ κ} :
    {A : Type ℓ} {B : Type κ} (m : Outcome A) (f : A → Outcome B)
    → Ends m
    → ((a : A) → Ends (f a))
    → Ends (m >>= f)
Ends-bind (done a) f hm hf = hf a
Ends-bind crash f hm hf = ends_crash
Ends-bind no_fuel f hm hf = absurd (not-Ends hm)

pub ruleset ends_rules = (ends_done, ends_crash, Ends-deref, Ends-if, Ends-bind)
