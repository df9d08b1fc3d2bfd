-- ===== src/Common/Eq.antt =====
-- Boolean equality, as JavaScript's `===` on the values that the program compares.
use Prim.Native.Nat.{ℕ}
use Prim.Native.String.{String}
use mathlib.Core.Path.{◌≡◌, refl}
use mathlib.Core.Logic.{◌↔◌, ◌≢◌}
use mathlib.Core.Bool.{Bool, true, false, ◌&&◌}
use mathlib.Core.Option.{Option, none, some}
use mathlib.Core.List.{List, [], ◌∷◌}
use native.Mathlib.Omega.{arith}
use text.Mathlib.Text.{◌==◌ as string_beq}
use text.Mathlib.TextEquality.{eq_iff as string_beq_iff}
use mcp_ui.Common.Tests.{nat_beq, nat_beq_iff}

pub record Equality {ℓ} (A : Type ℓ) : Type ℓ where
  pub equal : A → A → Bool
  pub equal_iff : (x y : A) → (equal x y ≡ true) ↔ (x ≡ y)

infix 50 ◌==◌
abbrev pub ◌==◌ {ℓ} : {A : Type ℓ} ⦃e : Equality A⦄ → A → A → Bool
◌==◌ ⦃e⦄ = e.equal

instance abbrev pub nat_eq : Equality ℕ
nat_eq = record { equal = nat_beq; equal_iff = nat_beq_iff }

instance abbrev pub string_eq : Equality String
string_eq = record { equal = string_beq; equal_iff = string_beq_iff }

module _ {ℓ} {A : Type ℓ} ⦃e : Equality A⦄ where
  abbrev pub option_beq : Option A → Option A → Bool
  option_beq none none = true
  option_beq (some a) (some b) = a == b
  option_beq _ _ = false

  pub option_beq_iff : (a b : Option A) → (option_beq a b ≡ true) ↔ (a ≡ b)
  option_beq_iff none none = ground arith
  option_beq_iff (some a) (some b) = ground (arith, e.equal_iff a b)
  option_beq_iff _ _ = ground arith

  abbrev pub list_beq : List A → List A → Bool
  list_beq [] [] = true
  list_beq (a ∷ as') (b ∷ bs) = (a == b) && list_beq as' bs
  list_beq _ _ = false

  pub list_beq_iff : (a b : List A) → (list_beq a b ≡ true) ↔ (a ≡ b)
  list_beq_iff [] [] = ground arith
  list_beq_iff (a ∷ as') (b ∷ bs) = ground (arith, e.equal_iff a b, list_beq_iff as' bs)
  list_beq_iff _ _ = ground arith

  pub beq_self : (a : A) → (a == a) ≡ true
  beq_self a = (e.equal_iff a a).1 refl

  pub beq_ne : (a b : A) → a ≢ b → (a == b) ≡ false
  beq_ne a b h = ground (arith, e.equal_iff a b)

instance abbrev pub option_eq {ℓ} : {A : Type ℓ} ⦃e : Equality A⦄ → Equality (Option A)
option_eq = record { equal = option_beq; equal_iff = option_beq_iff }

instance abbrev pub list_eq {ℓ} : {A : Type ℓ} ⦃e : Equality A⦄ → Equality (List A)
list_eq = record { equal = list_beq; equal_iff = list_beq_iff }

-- The equality of texts, at the pair that a tactic compares.
pub text_eq : (s t : String) → ((s == t) ≡ true) ↔ (s ≡ t)
text_eq s t = string_beq_iff s t

pub units_eq : (s t : List ℕ) → ((s == t) ≡ true) ↔ (s ≡ t)
units_eq s t = list_beq_iff s t
