-- ===== src/Prelude/Members.antt =====
-- Members of lists, and what Boolean searches say of them.
use mathlib.Core.Path.{◌≡◌, subst}
use mathlib.Core.Logic.{◌≢◌, ◌⊎◌, inl, inr, ∥∥₁_elim}
use mathlib.Core.Bool.{Bool, true, false, Bool-set}
use mathlib.Core.Option.{Option, none, some}
use mathlib.Core.List.{
  List, [], ◌∷◌, Mem, mem-cons_self, mem-cons_of_mem, eq-or-mem_of_mem-cons, not-mem-nil,
}
use native.Mathlib.Omega.{arith}
use zolo.Prelude.Tests.{Bool-cases, is_false}
use zolo.Prelude.Lists.{any, find, filter, All, some_injective}

pub All-map {ℓ κ ι} :
    {A : Type ℓ} (P : A → Type κ) (Q : A → Type ι) (xs : List A)
    → ((x : A) → P x → Q x)
    → All P xs
    → All Q xs
All-map P Q [] f h = tt
All-map P Q (x ∷ xs) f h = (f x h.0, All-map P Q xs f h.1)

module _ {ℓ} {A : Type ℓ} (p : A → Bool) where
  pub any-Mem : (xs : List A) → any p xs ≡ true → (x : A) × Mem x xs × (p x ≡ true)
  any-Mem [] h = absurd (cc)
  any-Mem (x ∷ xs) h = elim (Bool-cases (p x)) [
    | inl e ↦ (x, mem-cons_self, e)
    | inr e ↦ let (y, there, f) = any-Mem xs (ground arith) in (y, mem-cons_of_mem x there, f)
  ]

  pub Mem-any : (xs : List A) (x : A) → Mem x xs → p x ≡ true → any p xs ≡ true
  Mem-any [] x m h = absurd (not-mem-nil m)
  Mem-any (y ∷ xs) x m h = ∥∥₁_elim (eq-or-mem_of_mem-cons m) (Bool-set _ _) (elim [
    | inl e ↦ (let k = subst (λ z. p z ≡ true) e h in ground arith)
    | inr later ↦ (let k = Mem-any xs x later h in ground arith)
  ])

  filter_more : (x y : A) (xs : List A) → Mem y (filter p xs) → Mem y (filter p (x ∷ xs))
  filter_more x y xs m = elim (Bool-cases (p x)) [
    | inl e ↦ rw e (mem-cons_of_mem x m)
    | inr e ↦ rw e m
  ]

  filter_first : (x : A) (xs : List A) → p x ≡ true → Mem x (filter p (x ∷ xs))
  filter_first x xs e = rw e mem-cons_self

  pub filter-split : (xs : List A) → All (λ x. Mem x (filter p xs) ⊎ (p x ≡ false)) xs
  filter-split [] = tt
  filter-split (x ∷ xs) = (
    elim (Bool-cases (p x)) [ inl e ↦ inl (filter_first x xs e) | inr e ↦ inr e ],
    All-map (λ y. Mem y (filter p xs) ⊎ (p y ≡ false))
        (λ y. Mem y (filter p (x ∷ xs)) ⊎ (p y ≡ false)) xs
        (λ y. elim [ inl m ↦ inl (filter_more x y xs m) | inr f ↦ inr f ]) (filter-split xs),
  )

  pub find-Mem : (xs : List A) (y : A) → find p xs ≡ some y → Mem y xs × (p y ≡ true)
  find-Mem [] y h = absurd (cc)
  find-Mem (x ∷ xs) y h = elim (Bool-cases (p x)) [
    | inl e ↦ let same = some_injective (rw e at h) in rw (← same) (mem-cons_self, e)
    | inr e ↦ let (there, f) = find-Mem xs y (rw e at h) in (mem-cons_of_mem x there, f)
  ]

  pub none_fits : (xs : List A) → any p xs ≡ false → All (λ x. p x ≡ false) xs
  none_fits [] h = tt
  none_fits (x ∷ xs) h = (ground arith, none_fits xs (ground arith))

  pub not_found : (xs : List A) → find p xs ≡ none → All (λ x. p x ≡ false) xs
  not_found [] h = tt
  not_found (x ∷ xs) h = elim (Bool-cases (p x)) [
    | inl e ↦ absurd (let k = rw e at h in cc)
    | inr e ↦ (e, not_found xs (rw e at h))
  ]

  pub filter-Mem : (xs : List A) → All (λ x. Mem x xs × (p x ≡ true)) (filter p xs)
  filter-Mem [] = tt
  filter-Mem (x ∷ xs) =
      let behind =
        All-map (λ y. Mem y xs × (p y ≡ true)) (λ y. Mem y (x ∷ xs) × (p y ≡ true)) (filter p xs)
          (λ y h. (mem-cons_of_mem x h.0, h.1)) (filter-Mem xs) in
      elim (Bool-cases (p x)) [ inl e ↦ rw e ((mem-cons_self, e), behind) | inr e ↦ rw e behind ]

pub is_false-not : (o : Option Bool) → is_false o ≡ false → o ≢ some false
is_false-not none h e = absurd (cc)
is_false-not (some true) h e = absurd (cc)
is_false-not (some false) h e = absurd (cc)
