-- ===== src/Common/Equality.antt =====
-- `===` on the program's value types, and what the code builds on it: `includes`, and the test
-- `new Set(xs).size === xs.length`.
use mathlib.Core.Path.{◌≡◌, refl, sym, ap, ◌∙◌}
use mathlib.Core.Logic.{◌↔◌}
use mathlib.Core.Bool.{Bool, true, false, not, ◌&&◌, ◌||◌}
use mathlib.Core.Option.{Option, none, some}
use mathlib.Core.List.{List, [], ◌∷◌}
use Prim.Native.Nat.{ℕ}
use baseballstattrack.Common.Tests.{nat_beq, nat_beq_iff}

infix 50 ◌==◌
-- An equality by an injective numbering, for the enumerations.
pub by_code_iff {ℓ} :
    {A : Type ℓ} (code : A → ℕ) (decode : ℕ → A)
    → ((a : A) → decode (code a) ≡ a)
    → (a b : A) → (nat_beq (code a) (code b) ≡ true) ↔ (a ≡ b)
by_code_iff code decode inv a b = (
  λ h. sym (inv a) ∙ ap decode ((nat_beq_iff (code a) (code b)).0 h) ∙ inv b,
  λ p. (nat_beq_iff (code a) (code b)).1 (ap code p),
)

-- A type whose values `===` tells apart.
pub record Eq {ℓ} (V : Type ℓ) : Type ℓ where
  pub beq : V → V → Bool
  pub beq_iff : (x y : V) → (beq x y ≡ true) ↔ (x ≡ y)

instance abbrev pub nat_eq : Eq ℕ
nat_eq = record { beq = nat_beq; beq_iff = nat_beq_iff }

abbrev pub ◌==◌ {ℓ} : {V : Type ℓ} ⦃equality : Eq V⦄ → V → V → Bool
◌==◌ ⦃equality⦄ x y = equality.beq x y

module _ {ℓ} {A : Type ℓ} ⦃e : Eq A⦄ where
  abbrev pub contains : List A → A → Bool
  contains [] a = false
  contains (x ∷ xs) a = x == a || contains xs a

  abbrev pub distinct : List A → Bool
  distinct [] = true
  distinct (x ∷ xs) = not (contains xs x) && distinct xs

  abbrev pub option_beq : Option A → Option A → Bool
  option_beq none none = true
  option_beq (some a) (some b) = a == b
  option_beq _ _ = false

  pub beq_refl : (a : A) → (a == a) ≡ true
  beq_refl a = (e.beq_iff a a).1 refl

  pub eq_of_beq : (a b : A) → (a == b) ≡ true → a ≡ b
  eq_of_beq a b h = (e.beq_iff a b).0 h
