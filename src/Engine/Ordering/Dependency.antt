-- ===== src/Engine/Ordering/Dependency.antt =====
-- src/application/engine.ts: the order of the commands of a plan respects the one dependency
-- among them.
use zolo.Prelude.{
  ℕ, zero, suc, ◌≤◌, Bool, true, false, not, ◌&&◌, ◌||◌, Option, none, some, List, [], ◌∷◌, ◌≡◌,
  refl, ap, ◌∙◌, subst, arith, Bool-cases, Option-cases, some_injective, inl, inr, nat_eq,
  option_eq, any, length, and_both, Perm,
}
use mathlib.Core.List.Perm
use zolo.Domain.{Command, counterparty}
use zolo.Engine.Ordering.{receiver_details, links, take_out, ordered_from, ordered}

-- Details of the receiver stand behind a `counterparty` of their request, or none follows them.
abbrev pub placed : List Command → List Command → Command → Bool
placed before rest c = elim (receiver_details c) [
  | none ↦ true
  | some number ↦ any (links number) before || not (any (links number) rest)
]

abbrev pub linked_first : List Command → List Command → Bool
linked_first before [] = true
linked_first before (c ∷ cs) = placed before cs c && linked_first (c ∷ before) cs

-- What `take_out` finds.
record Taken (p : Command → Bool) (cs : List Command) (found : Command × List Command)
    : Type 0 where
  passes : p found.0 ≡ true
  shorter : length cs ≡ suc (length found.1)
  members : (q : Command → Bool) → any q cs ≡ (q found.0 || any q found.1)
  same : Perm cs (found.0 ∷ found.1)

or_swap : (a b c : Bool) → (a || (b || c)) ≡ (b || (a || c))
or_swap a b c = ground arith

take_out-Taken :
    (p : Command → Bool) (cs : List Command) (found : Command × List Command)
    → take_out p cs ≡ some found
    → Taken p cs found
unfolding take_out
take_out-Taken p [] found h = absurd (cc)
take_out-Taken p (c ∷ cs) found h = elim (Bool-cases (p c)) [
  | inl hit ↦
      subst (Taken p (c ∷ cs)) (some_injective (rw (hit, take_out) at h))
        (record { passes = hit; shorter = refl; members = λ q. refl; same = Perm.rfl })
  | inr miss ↦ elim (Option-cases (take_out p cs)) [
    | inl nowhere ↦ absurd (let k = rw (miss, nowhere, take_out) at h in cc)
    | inr (later, e) ↦
        let t = take_out-Taken p cs later e in
        subst (Taken p (c ∷ cs)) (some_injective (rw (miss, e, take_out) at h)) (record {
          passes = t.passes;
          shorter = ap suc t.shorter;
          members = λ q. rw (t.members q) (or_swap (q c) (q later.0) (any q later.1));
          same = Perm.trans (Perm.cons c t.same) (Perm.swap later.0 c later.1);
        })
  ]
]

take_out-none : (p : Command → Bool) (cs : List Command) → take_out p cs ≡ none → any p cs ≡ false
unfolding take_out
take_out-none p [] h = refl
take_out-none p (c ∷ cs) h = elim (Bool-cases (p c)) [
  | inl hit ↦ absurd (let k = rw (hit, take_out) at h in cc)
  | inr miss ↦ elim (Option-cases (take_out p cs)) [
    | inl nowhere ↦ rw (miss, take_out-none p cs nowhere)
    | inr (later, e) ↦ absurd (let k = rw (miss, e, take_out) at h in cc)
  ]
]

-- A command that links is no details.
links-receiver_details :
    (number : Option ℕ) (c : Command) → links number c ≡ true → receiver_details c ≡ none
links-receiver_details number (counterparty c) h = refl
links-receiver_details number c h = absurd (cc)

-- The order has the commands of the plan.
any-ordered_from :
    (q : Command → Bool) (n : ℕ) (cs : List Command) → any q (ordered_from n cs) ≡ any q cs
unfolding ordered_from
any-ordered_from q zero cs = refl
any-ordered_from q (suc n) [] = refl
any-ordered_from q (suc n) (c ∷ cs) = elim (Option-cases (receiver_details c)) [
  | inl e ↦ rw (e, ordered_from) (ap (λ b. q c || b) (any-ordered_from q n cs))
  | inr (number, e) ↦ elim (Option-cases (take_out (links number) cs)) [
    | inl e' ↦ rw (e, e', ordered_from) (ap (λ b. q c || b) (any-ordered_from q n cs))
    | inr (found, e') ↦
        let t = take_out-Taken (links number) cs found e' in
        rw (e, e', ordered_from, any-ordered_from q n found.1, t.members q)
          (or_swap (q found.0) (q c) (any q found.1))
  ]
]

placed-none :
    (before rest : List Command) (c : Command)
    → receiver_details c ≡ none
    → placed before rest c ≡ true
placed-none before rest c e = rw (e, placed) refl

or_true : (b : Bool) → (b || true) ≡ true
or_true b = ground arith

placed-alone :
    (number : Option ℕ) (before rest : List Command) (c : Command)
    → receiver_details c ≡ some number
    → any (links number) rest ≡ false
    → placed before rest c ≡ true
placed-alone number before rest c e h = rw (e, h, placed) (or_true (any (links number) before))

placed-linked :
    (number : Option ℕ) (before rest : List Command) (c d : Command)
    → receiver_details c ≡ some number
    → links number d ≡ true
    → placed (d ∷ before) rest c ≡ true
placed-linked number before rest c d e h = rw (e, h, placed) refl

ordered_from-linked_first :
    (n : ℕ) (before cs : List Command)
    → length cs ≤ n
    → linked_first before (ordered_from n cs) ≡ true
unfolding ordered_from
ordered_from-linked_first zero before [] h = refl
ordered_from-linked_first zero before (c ∷ cs) h = absurd (omega arith)
ordered_from-linked_first (suc n) before [] h = refl
ordered_from-linked_first (suc n) before (c ∷ cs) h = elim (Option-cases (receiver_details c)) [
  | inl e ↦
      rw (e, ordered_from)
        (and_both _ _ (placed-none before (ordered_from n cs) c e)
          (ordered_from-linked_first n (c ∷ before) cs (omega arith)))
  | inr (number, e) ↦ elim (Option-cases (take_out (links number) cs)) [
    | inl e' ↦
        rw (e, e', ordered_from)
          (and_both _ _
            (placed-alone number before (ordered_from n cs) c e
              (any-ordered_from (links number) n cs ∙ take_out-none (links number) cs e'))
            (ordered_from-linked_first n (c ∷ before) cs (omega arith)))
    | inr (found, e') ↦
        let t = take_out-Taken (links number) cs found e' in
        let le : length found.1 ≤ n = let k = t.shorter in omega arith in
        rw (e, e', ordered_from)
          (and_both _ _
            (placed-none before (c ∷ ordered_from n found.1) found.0
              (links-receiver_details number found.0 t.passes))
            (and_both _ _
              (placed-linked number before (ordered_from n found.1) c found.0 e t.passes)
              (ordered_from-linked_first n (c ∷ found.0 ∷ before) found.1 le)))
  ]
]

ordered_from-Perm : (n : ℕ) (cs : List Command) → Perm cs (ordered_from n cs)
unfolding ordered_from
ordered_from-Perm zero cs = Perm.rfl
ordered_from-Perm (suc n) [] = Perm.rfl
ordered_from-Perm (suc n) (c ∷ cs) = elim (Option-cases (receiver_details c)) [
  | inl e ↦ rw (e, ordered_from) (Perm.cons c (ordered_from-Perm n cs))
  | inr (number, e) ↦ elim (Option-cases (take_out (links number) cs)) [
    | inl e' ↦ rw (e, e', ordered_from) (Perm.cons c (ordered_from-Perm n cs))
    | inr (found, e') ↦
        let t = take_out-Taken (links number) cs found e' in
        rw (e, e', ordered_from)
          (Perm.trans (Perm.cons c t.same) (
            Perm.trans (Perm.swap found.0 c found.1)
              (Perm.cons found.0 (Perm.cons c (ordered_from-Perm n found.1)))))
  ]
]

pub any-ordered : (q : Command → Bool) (cs : List Command) → any q (ordered cs) ≡ any q cs
unfolding ordered
any-ordered q cs = any-ordered_from q (length cs) cs

-- In the order in which the commands of a plan run, the details of a receiver stand behind a
-- counterparty command of their request or none follows them, and the order is a permutation of
-- the plan, so that each command stands in it as often as in the plan.
pub ordered-linked_first :
    (cs : List Command) → (linked_first [] (ordered cs) ≡ true) × Perm cs (ordered cs)
unfolding ordered
ordered-linked_first cs =
    (ordered_from-linked_first (length cs) [] cs (omega arith), ordered_from-Perm (length cs) cs)
