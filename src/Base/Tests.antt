-- ===== src/Base/Tests.antt =====
-- Boolean tests on the native numbers and on texts, the conditional, and case splits that keep
-- their equation.
use Prim.Native.Nat.{ℕ, compare, Ordering}
use Prim.Native.String.{String}
use mathlib.Core.Path.{◌≡◌, refl}
use mathlib.Core.Logic.{◌↔◌, ◌⊎◌, inl, inr}
use mathlib.Core.Bool.{Bool, true, false}
use mathlib.Core.Option.{Option, none, some}
use native.Mathlib.Omega.{arith}
use text.Mathlib.Text.{◌==◌ as text_eq}
use text.Mathlib.TextEquality.{eq_iff}

abbrev pub ltb : ℕ → ℕ → Bool
ltb a b = elim (compare a b) [ Ordering.lt ↦ true | _ ↦ false ]

abbrev pub leb : ℕ → ℕ → Bool
leb a b = elim (compare a b) [ Ordering.gt ↦ false | _ ↦ true ]

infix 1 if◌then◌else◌
abbrev pub if◌then◌else◌ {ℓ} : {A : Type ℓ} → Bool → A → A → A
if true then x else y = x
if false then x else y = y

pub Bool-cases : (b : Bool) → (b ≡ true) ⊎ (b ≡ false)
Bool-cases true = inl refl
Bool-cases false = inr refl

pub Option-cases {ℓ} : {A : Type ℓ} (o : Option A) → (o ≡ none) ⊎ ((a : A) × (o ≡ some a))
Option-cases none = inl refl
Option-cases (some a) = inr (a, refl)

-- Go's `==` on strings.
unfoldable pub same : String → String → Bool
same a b = text_eq a b

pub same_iff : (a b : String) → (same a b ≡ true) ↔ (a ≡ b)
unfolding same
same_iff a b = eq_iff a b

pub same_self : (a : String) → same a a ≡ true
same_self a = (same_iff a a).1 refl

-- To split on the equality of two texts.
pub same-cases : (a b : String) → (a ≡ b) ⊎ (same a b ≡ false)
same-cases a b = elim (Bool-cases (same a b)) [ inl e ↦ inl ((same_iff a b).0 e) | inr e ↦ inr e ]

pub same_comm : (a b : String) → same a b ≡ same b a
same_comm a b = ground (arith, same_iff a b, same_iff b a)
