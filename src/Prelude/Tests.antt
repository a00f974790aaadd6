-- ===== src/Prelude/Tests.antt =====
-- Boolean tests on numbers, the conditional, and case splits that keep the equation.
use Prim.Native.Nat.{ℕ, compare, Ordering}
use Prim.Native.String.{String}
use text.Mathlib.Text.{◌==◌ as text_eq}
use text.Mathlib.TextEquality.{eq_iff}
use mathlib.Core.Path.{◌≡◌, refl}
use mathlib.Core.Logic.{◌⊎◌, inl, inr, ◌↔◌}
use mathlib.Core.Bool.{Bool, true, false, ◌&&◌}
use mathlib.Core.Option.{Option, none, some}
use native.Mathlib.Omega.{arith}

abbrev pub ltb : ℕ → ℕ → Bool
ltb a b = elim (compare a b) [ Ordering.lt ↦ true | _ ↦ false ]

abbrev pub leb : ℕ → ℕ → Bool
leb a b = elim (compare a b) [ Ordering.gt ↦ false | _ ↦ true ]

abbrev nat_beq : ℕ → ℕ → Bool
nat_beq a b = elim (compare a b) [ Ordering.eq ↦ true | _ ↦ false ]

pub nat_beq_iff : (a b : ℕ) → (nat_beq a b ≡ true) ↔ (a ≡ b)
nat_beq_iff a b = ground arith

-- `===` on the values of a type.
pub record Equality {κ} (B : Type κ) : Type κ where
  pub same : (left right : B) → Bool
  pub same_iff : (left right : B) → (same left right ≡ true) ↔ (left ≡ right)

instance abbrev pub string_eq : Equality String
string_eq = record { same = text_eq; same_iff = eq_iff }

instance abbrev pub nat_eq : Equality ℕ
nat_eq = record { same = nat_beq; same_iff = nat_beq_iff }

infix 50 ◌==◌
abbrev pub ◌==◌ {κ} : {B : Type κ} ⦃q : Equality B⦄ → (left right : B) → Bool
◌==◌ ⦃q⦄ left right = q.same left right

infix 1 if◌then◌else◌
abbrev pub if◌then◌else◌ {ℓ} : {A : Type ℓ} → Bool → A → A → A
if true then x else y = x
if false then x else y = y

pub Bool-cases : (b : Bool) → (b ≡ true) ⊎ (b ≡ false)
Bool-cases true = inl refl
Bool-cases false = inr refl

pub and_left : (a b : Bool) → (a && b) ≡ true → a ≡ true
and_left a b h = ground arith

pub and_right : (a b : Bool) → (a && b) ≡ true → b ≡ true
and_right a b h = ground arith

module _ {ℓ} {A : Type ℓ} where
  pub Option-cases : (o : Option A) → (o ≡ none) ⊎ ((a : A) × (o ≡ some a))
  Option-cases none = inl refl
  Option-cases (some a) = inr (a, refl)

  -- `x !== null`
  abbrev pub is_some : Option A → Bool
  is_some none = false
  is_some (some _) = true

  -- `x === null`, `!x` on a nullable object
  abbrev pub is_none : Option A → Bool
  is_none none = true
  is_none (some _) = false

  -- `a ?? b`
  abbrev pub or_else : Option A → Option A → Option A
  or_else none b = b
  or_else (some a) _ = some a

-- `x === true` and `x === false` on `boolean | null`.
abbrev pub is_true : Option Bool → Bool
is_true (some true) = true
is_true _ = false

abbrev pub is_false : Option Bool → Bool
is_false (some false) = true
is_false _ = false

-- `===` on nullable values.
abbrev option_beq {ℓ} : {A : Type ℓ} → (A → A → Bool) → Option A → Option A → Bool
option_beq eq none none = true
option_beq eq (some a) (some b) = eq a b
option_beq eq _ _ = false

pub option_beq_iff {ℓ} :
    {A : Type ℓ} (e : Equality A) (a b : Option A) → (option_beq e.same a b ≡ true) ↔ (a ≡ b)
option_beq_iff e none none = (λ _. refl, λ _. refl)
option_beq_iff e none (some b) = ground arith
option_beq_iff e (some a) none = ground arith
option_beq_iff e (some a) (some b) = ground (arith, e.same_iff a b)

instance abbrev pub option_eq {ℓ} : {A : Type ℓ} ⦃e : Equality A⦄ → Equality (Option A)
option_eq ⦃e⦄ = record { same = option_beq e.same; same_iff = option_beq_iff e }

pub and_four :
    (a b c d : Bool) → (a && b && c && d) ≡ true → (a ≡ true) × (b ≡ true) × (c ≡ true) × (d ≡ true)
and_four a b c d h = (ground arith, ground arith, ground arith, ground arith)

pub and_all :
    (a b c d : Bool) → a ≡ true → b ≡ true → c ≡ true → d ≡ true → (a && b && c && d) ≡ true
and_all a b c d h k l m = ground arith

pub and_both : (a b : Bool) → a ≡ true → b ≡ true → (a && b) ≡ true
and_both a b h k = ground arith

module _ {ℓ} {A : Type ℓ} ⦃e : Equality A⦄ where
  pub eq_sound : (a b : A) → (a == b) ≡ true → a ≡ b
  eq_sound a b h = (e.same_iff a b).0 h

  pub eq_complete : (a b : A) → a ≡ b → (a == b) ≡ true
  eq_complete a b h = (e.same_iff a b).1 h

pub is_none-none {ℓ} : {A : Type ℓ} (o : Option A) → is_none o ≡ true → o ≡ none
is_none-none none h = refl
is_none-none (some a) h = absurd (cc)

pub is_some-some {ℓ} : {A : Type ℓ} (o : Option A) → is_some o ≡ true → (a : A) × (o ≡ some a)
is_some-some none h = absurd (cc)
is_some-some (some a) h = (a, refl)
