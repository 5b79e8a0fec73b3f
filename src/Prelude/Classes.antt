-- ===== src/Prelude/Classes.antt =====
-- Equality as an interface: `==` for every type that is a key of a table.
use Prim.Native.Nat.{ℕ}
use Prim.Native.String.{String}
use mathlib.Core.Path.{◌≡◌, refl}
use mathlib.Core.Logic.{◌↔◌}
use mathlib.Core.Bool.{Bool, true, false, ◌&&◌}
use mathlib.Core.Option.{Option, none, some}
use native.Mathlib.Omega.{arith}
use text.Mathlib.Text.{◌==◌ as str_eq}
use text.Mathlib.TextEquality.{eq_iff}
use lil_tweak.Prelude.Tests.{nat_eq, nat_eq_iff}

pub record Eq {ℓ} (K : Type ℓ) : Type ℓ where
  pub agree : K → K → Bool
  pub agree_iff : (left right : K) → (agree left right ≡ true) ↔ (left ≡ right)

infix 50 ◌==◌
abbrev pub ◌==◌ {κ} : {K : Type κ} ⦃e : Eq K⦄ → K → K → Bool
◌==◌ ⦃e⦄ = e.agree

instance abbrev pub nat_Eq : Eq ℕ
nat_Eq = record { agree_iff = nat_eq_iff; agree = nat_eq }

instance abbrev pub string_Eq : Eq String
string_Eq = record { agree_iff = eq_iff; agree = str_eq }

module _ {A B : Type 0} ⦃e : Eq A⦄ ⦃f : Eq B⦄ where
  abbrev pub pair_beq : A × B → A × B → Bool
  pair_beq (a, b) (c, d) = e.agree a c && f.agree b d

  pub pair_beq_iff : (p q : A × B) → (pair_beq p q ≡ true) ↔ (p ≡ q)
  pair_beq_iff (a, b) (c, d) = ground (arith, e.agree_iff a c, f.agree_iff b d)

instance abbrev pub pair_Eq : {A B : Type 0} ⦃e : Eq A⦄ ⦃f : Eq B⦄ → Eq (A × B)
pair_Eq = record { agree = pair_beq; agree_iff = pair_beq_iff }

-- `None` equals only itself.
module _ {A : Type 0} ⦃e : Eq A⦄ where
  abbrev pub option_beq : Option A → Option A → Bool
  option_beq none none = true
  option_beq none (some b) = false
  option_beq (some a) none = false
  option_beq (some a) (some b) = e.agree a b

  pub option_beq_iff : (p q : Option A) → (option_beq p q ≡ true) ↔ (p ≡ q)
  option_beq_iff none none = ground arith
  option_beq_iff none (some b) = ground arith
  option_beq_iff (some a) none = ground arith
  option_beq_iff (some a) (some b) = ground (arith, e.agree_iff a b)

instance abbrev pub option_Eq : {A : Type 0} ⦃e : Eq A⦄ → Eq (Option A)
option_Eq = record { agree = option_beq; agree_iff = option_beq_iff }

module _ {ℓ} {A : Type ℓ} ⦃e : Eq A⦄ where
  pub beq_refl : (a : A) → e.agree a a ≡ true
  beq_refl a = (e.agree_iff a a).1 refl
