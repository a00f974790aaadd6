-- ===== src/Prelude/Lists.antt =====
-- Lists with Boolean tests and native lengths.
use Prim.Native.Nat.{ℕ, zero, suc, ◌+◌, ◌≤◌}
use mathlib.Core.Path.{◌≡◌, refl, ap}
use mathlib.Core.Bool.{Bool, true, false, ◌&&◌, ◌||◌}
use mathlib.Core.List.{List, [], ◌∷◌, ◌++◌}
use mathlib.Core.Logic.{inl, inr}
use mathlib.Core.Option.{Option, none, some}
use native.Mathlib.Omega.{arith}
use zolo.Prelude.Tests.{if◌then◌else◌, Bool-cases, or_else}

module _ {ℓ} {A : Type ℓ} where
  abbrev pub length : List A → ℕ
  length [] = 0
  length (x ∷ xs) = suc (length xs)

  abbrev pub any : (A → Bool) → List A → Bool
  any p [] = false
  any p (x ∷ xs) = p x || any p xs

  abbrev pub all : (A → Bool) → List A → Bool
  all p [] = true
  all p (x ∷ xs) = p x && all p xs

  -- `xs.find(p)`
  abbrev pub find : (A → Bool) → List A → Option A
  find p [] = none
  find p (x ∷ xs) = if p x then some x else find p xs

  -- `xs.filter(p)`
  abbrev pub filter : (A → Bool) → List A → List A
  filter p [] = []
  filter p (x ∷ xs) = let rest = filter p xs in if p x then x ∷ rest else rest

  -- `xs.filter(p).length`
  abbrev pub count : (A → Bool) → List A → ℕ
  count p [] = 0
  count p (x ∷ xs) = let rest = count p xs in if p x then suc rest else rest

  -- A `for … of` loop that writes to the elements that pass a test.
  abbrev pub update : (A → Bool) → (A → A) → List A → List A
  update p f [] = []
  update p f (x ∷ xs) = let rest = update p f xs in if p x then f x ∷ rest else x ∷ rest

  -- A write through the reference that `find` returned: the first fit alone changes.
  abbrev pub update_first : (A → Bool) → (A → A) → List A → List A
  update_first p f [] = []
  update_first p f (x ∷ xs) = let rest = update_first p f xs in if p x then f x ∷ xs else x ∷ rest

  -- `xs.slice(n)`
  abbrev pub drop : ℕ → List A → List A
  drop zero xs = xs
  drop (suc n) [] = []
  drop (suc n) (_ ∷ xs) = drop n xs

  -- `xs.length === 0`
  abbrev pub is_empty : List A → Bool
  is_empty [] = true
  is_empty (_ ∷ _) = false

  abbrev pub head? : List A → Option A
  head? [] = none
  head? (x ∷ _) = some x

  -- `xs.at(-1)`
  abbrev pub last? : List A → Option A
  last? [] = none
  last? (x ∷ []) = some x
  last? (x ∷ y ∷ xs) = last? (y ∷ xs)

  -- Every element satisfies `P`.
  abbrev pub All {κ} : (A → Type κ) → List A → Type κ
  All P [] = Unit
  All P (x ∷ xs) = P x × All P xs

module _ {ℓ} {A : Type ℓ} where
  pub length-append : (xs ys : List A) → length (xs ++ ys) ≡ length xs + length ys
  length-append [] ys = omega arith
  length-append (x ∷ xs) ys = omega (arith, length-append xs ys)

  pub All-append {κ} : (P : A → Type κ) (xs ys : List A) → All P xs → All P ys → All P (xs ++ ys)
  All-append P [] ys _ k = k
  All-append P (x ∷ xs) ys (p, h) k = (p, All-append P xs ys h k)

  pub All-update {κ} :
      (P : A → Type κ) (p : A → Bool) (f : A → A) (xs : List A)
      → ((x : A) → P x → P (f x))
      → All P xs
      → All P (update p f xs)
  All-update P p f [] keep h = h
  All-update P p f (x ∷ xs) keep h = ground (arith, keep x h.0, All-update P p f xs keep h.1)

  pub any-find : (p : A → Bool) (xs : List A) → any p xs ≡ true → (x : A) × (find p xs ≡ some x)
  any-find p [] h = absurd (cc)
  any-find p (x ∷ xs) h = elim (Bool-cases (p x)) [
    | inl fits ↦ (x, rw fits)
    | inr fails ↦ let (y, e) = any-find p xs (ground arith) in (y, rw fails e)
  ]

  pub find_holds : (p : A → Bool) (xs : List A) (x : A) → find p xs ≡ some x → p x ≡ true
  find_holds p [] x h = absurd (cc)
  find_holds p (y ∷ xs) x h = ground (arith, find_holds p xs x)

  pub find-All {κ} :
      (P : A → Type κ) (p : A → Bool) (xs : List A) (x : A) → All P xs → find p xs ≡ some x → P x
  find-All P p [] x h e = absurd (cc)
  find-All P p (y ∷ xs) x h e = ground (arith, find-All P p xs x h.1)

  pub some_injective : {x y : A} → some x ≡ some y → x ≡ y
  some_injective h = cc

  none-some : {x : A} {o : Option A} → o ≡ none → o ≡ some x → ⊥
  none-some h k = absurd (cc)

  pub count-update :
      (p q : A → Bool) (f : A → A) (xs : List A) → count p (update q f xs) ≤ count p xs + count q xs
  count-update p q f [] = omega arith
  count-update p q f (x ∷ xs) = ground (arith, count-update p q f xs)

  pub count-update_miss :
      (p q : A → Bool) (f : A → A) (xs : List A)
      → ((x : A) → p (f x) ≡ false)
      → count p (update q f xs) ≤ count p xs
  count-update_miss p q f [] miss = omega arith
  count-update_miss p q f (x ∷ xs) miss = ground (arith, miss x, count-update_miss p q f xs miss)

  -- Where every written element fails the test, none passes it any more.
  pub find-update_miss :
      (q : A → Bool) (f : A → A) (xs : List A)
      → ((x : A) → q x ≡ true → q (f x) ≡ false)
      → find q (update q f xs) ≡ none
  find-update_miss q f [] miss = refl
  find-update_miss q f (x ∷ xs) miss = elim (Bool-cases (q x)) [
    | inl hit ↦ rw (hit, miss x hit) (find-update_miss q f xs miss)
    | inr fails ↦ rw (fails, fails) (find-update_miss q f xs miss)
  ]

  pub count-find :
      (p q : A → Bool) (xs : List A)
      → ((x : A) → q x ≡ true → p x ≡ true)
      → count p xs ≡ 0
      → find q xs ≡ none
  count-find p q [] sub h = refl
  count-find p q (x ∷ xs) sub h = elim (Bool-cases (q x)) [
    | inl hit ↦ absurd (ground (arith, sub x hit))
    | inr miss ↦ rw miss (count-find p q xs sub (ground arith))
  ]

  -- A write to the only element of a key is read back under that key.
  pub find-update :
      (p q : A → Bool) (f : A → A) (xs : List A) (y : A)
      → ((x : A) → q x ≡ true → p x ≡ true)
      → ((x : A) → q x ≡ true → p (f x) ≡ true)
      → count p xs ≤ 1
      → find q xs ≡ some y
      → find p (update q f xs) ≡ some (f y)
  find-update p q f [] y sub keep one h = absurd (cc)
  find-update p q f (x ∷ xs) y sub keep one h = elim (Bool-cases (q x)) [
    | inl hit ↦ rw (hit, keep x hit) (ap (λ o. some (f o)) (some_injective (rw hit at h)))
    | inr miss ↦ elim (Bool-cases (p x)) [
      | inl key ↦ absurd (none-some (count-find p q xs sub (ground arith)) (rw miss at h))
      | inr no_key ↦
          rw (miss, no_key) (find-update p q f xs y sub keep (ground arith) (rw miss at h))
    ]
  ]

  pub find-append :
      (p : A → Bool) (xs ys : List A) → find p (xs ++ ys) ≡ or_else (find p xs) (find p ys)
  find-append p [] ys = refl
  find-append p (x ∷ xs) ys = ground (arith, find-append p xs ys)

  pub find-none :
      (p q : A → Bool) (xs : List A)
      → ((x : A) → q x ≡ true → p x ≡ true)
      → any p xs ≡ false
      → find q xs ≡ none
  find-none p q [] sub h = refl
  find-none p q (x ∷ xs) sub h = elim (Bool-cases (q x)) [
    | inl hit ↦ absurd (ground (arith, sub x hit))
    | inr miss ↦ rw miss (find-none p q xs sub (ground arith))
  ]

  pub count-append : (p : A → Bool) (xs ys : List A) → count p (xs ++ ys) ≡ count p xs + count p ys
  count-append p [] ys = omega arith
  count-append p (x ∷ xs) ys = ground (arith, count-append p xs ys)

  pub count-any : (p : A → Bool) (xs : List A) → any p xs ≡ false → count p xs ≡ 0
  count-any p [] h = refl
  count-any p (x ∷ xs) h = ground (arith, count-any p xs)

  pub filter-All : (p : A → Bool) (xs : List A) → All (λ x. p x ≡ true) (filter p xs)
  filter-All p [] = tt
  filter-All p (x ∷ xs) = elim (Bool-cases (p x)) [
    | inl keep ↦ rw keep (keep, filter-All p xs)
    | inr drop ↦ rw drop (filter-All p xs)
  ]

  pub count-and : (p q : A → Bool) (xs : List A) → count (λ x. p x && q x) xs ≤ count p xs
  count-and p q [] = omega arith
  count-and p q (x ∷ xs) = ground (arith, count-and p q xs)

  pub any_append : (p : A → Bool) (xs ys : List A) → any p ys ≡ true → any p (xs ++ ys) ≡ true
  any_append p [] ys h = h
  any_append p (x ∷ xs) ys h = ground (arith, any_append p xs ys h)

  pub count-update_within :
      (p q : A → Bool) (f : A → A) (xs : List A)
      → ((x : A) → q x ≡ true → p x ≡ true)
      → count p (update q f xs) ≤ count p xs
  count-update_within p q f [] sub = omega arith
  count-update_within p q f (x ∷ xs) sub = ground (arith, sub x, count-update_within p q f xs sub)

  -- A write to every element that passes a test is read back under that test.
  pub find-update_self :
      (p : A → Bool) (f : A → A) (xs : List A) (y : A)
      → ((x : A) → p x ≡ true → p (f x) ≡ true)
      → find p xs ≡ some y
      → find p (update p f xs) ≡ some (f y)
  find-update_self p f [] y keep h = absurd (cc)
  find-update_self p f (x ∷ xs) y keep h = elim (Bool-cases (p x)) [
    | inl hit ↦ rw (hit, keep x hit) (ap (λ o. some (f o)) (some_injective (rw hit at h)))
    | inr miss ↦ rw (miss, miss) (find-update_self p f xs y keep (rw miss at h))
  ]

  -- A write to the first element that passes a test is read back, if it only writes to such.
  pub find-update_hit :
      (p q : A → Bool) (f : A → A) (xs : List A) (y : A)
      → ((x : A) → q x ≡ true → p x ≡ true)
      → ((x : A) → q x ≡ true → p (f x) ≡ true)
      → find p xs ≡ some y
      → q y ≡ true
      → find p (update q f xs) ≡ some (f y)
  find-update_hit p q f [] y sub keep h hit = absurd (cc)
  find-update_hit p q f (x ∷ xs) y sub keep h hit = elim (Bool-cases (q x)) [
    | inl written ↦
        rw (written, keep x written)
          (ap (λ o. some (f o)) (some_injective (rw (sub x written) at h)))
    | inr left ↦ elim (Bool-cases (p x)) [
      | inl first ↦ absurd (let e = some_injective (rw first at h) in cc (ap q e))
      | inr passed ↦ rw (left, passed) (find-update_hit p q f xs y sub keep (rw passed at h) hit)
    ]
  ]
