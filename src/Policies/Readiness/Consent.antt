-- ===== src/Policies/Readiness/Consent.antt =====
-- src/domain/policies.ts: what `readyToCoordinate` demands, as a specification of its own.
use zolo.Prelude.{
  ℕ, Bool, true, ◌&&◌, Option, none, some, List, [], ◌∷◌, ◌≡◌, refl, ◌↔◌, arith, and_four, and_all,
  and_both, eq_sound, eq_complete, is_none-none, is_some-some, subst, sym, and_left, and_right,
  is_some, is_none, nat_eq, string_eq, option_eq, ◌==◌, all, All, length,
}
use zolo.Domain.{Party, Request}
use zolo.Policies.Readiness.{has_approved, ready_to_propose_schedule, ready_to_coordinate}

-- The party approved in its own name, and gave its own name and place.
pub record Consents (p : Party) : Type 0 where
  pub instant : ℕ
  pub approved : p.approved_at ≡ some instant
  pub in_person : p.approved_by ≡ some p.phone

-- Both parties of a request that stands at a proposed date have consented to it and to that date.
pub record Agreed (r : Request) : Type 0 where
  pub date : ℕ
  pub proposed : r.proposed_run_date ≡ some date
  pub no_date : r.run_date ≡ none
  pub two : length r.parties ≡ 2
  pub consents : All Consents r.parties
  pub same_date : All (λ p. p.schedule_approved_date ≡ some date) r.parties

pub all-All {ℓ κ} :
    {A : Type ℓ} (P : A → Type κ) (p : A → Bool) (xs : List A)
    → ((x : A) → p x ≡ true → P x)
    → all p xs ≡ true
    → All P xs
all-All P p [] f h = tt
all-All P p (x ∷ xs) f h =
    (f x (and_left (p x) (all p xs) h), all-All P p xs f (and_right (p x) (all p xs) h))

has_approved-Consents : (p : Party) → has_approved p ≡ true → Consents p
has_approved-Consents p h =
    elim p.approved_at as (λ o. p.approved_at ≡ o → Consents p) [
      | none ↦ λ e. absurd (ground (arith, e))
      | some t ↦ λ e. record {
        instant = t;
        approved = e;
        in_person =
            eq_sound p.approved_by (some p.phone)
              (and_right (is_some p.approved_at) (p.approved_by == some p.phone) h);
      }
    ]
      refl

All-all {ℓ κ} :
    {A : Type ℓ} (P : A → Type κ) (p : A → Bool) (xs : List A)
    → ((x : A) → P x → p x ≡ true)
    → All P xs
    → all p xs ≡ true
All-all P p [] f h = refl
All-all P p (x ∷ xs) f h = ground (arith, f x h.0, All-all P p xs f h.1)

Consents-has_approved : (p : Party) → Consents p → has_approved p ≡ true
Consents-has_approved p c =
    and_both (is_some p.approved_at) (p.approved_by == some p.phone) (rw c.approved)
      (eq_complete p.approved_by (some p.phone) c.in_person)

-- A party's answer to the proposal `proposal`, as the code tests it.
abbrev answers : Option ℕ → Party → Bool
answers proposal p = has_approved p && p.schedule_approved_date == proposal

answers-same_date :
    (date : ℕ) (p : Party) → answers (some date) p ≡ true → p.schedule_approved_date ≡ some date
answers-same_date date p h =
    eq_sound p.schedule_approved_date (some date)
      (and_right (has_approved p) (p.schedule_approved_date == some date) h)

answers-Consents : (o : Option ℕ) (p : Party) → answers o p ≡ true → Consents p
answers-Consents o p h =
    has_approved-Consents p (and_left (has_approved p) (p.schedule_approved_date == o) h)

agreed-answers :
    (date : ℕ) (ps : List Party)
    → All Consents ps
    → All (λ p. p.schedule_approved_date ≡ some date) ps
    → all (answers (some date)) ps ≡ true
agreed-answers date [] c s = refl
agreed-answers date (p ∷ ps) c s =
    and_both (answers (some date) p) (all (answers (some date)) ps)
      (and_both (has_approved p) (p.schedule_approved_date == some date)
        (Consents-has_approved p c.0) (eq_complete p.schedule_approved_date (some date) s.0))
      (agreed-answers date ps c.1 s.1)

ready-parts :
    (r : Request)
    → ready_to_coordinate r ≡ true
    → (is_none r.run_date ≡ true)
      × (is_some r.proposed_run_date ≡ true)
      × (ready_to_propose_schedule r ≡ true)
      × (all (answers r.proposed_run_date) r.parties ≡ true)
unfolding ready_to_coordinate
ready-parts r h =
    and_four (is_none r.run_date) (is_some r.proposed_run_date) (ready_to_propose_schedule r)
      (all (answers r.proposed_run_date) r.parties) h

ready-two : (r : Request) → ready_to_propose_schedule r ≡ true → length r.parties ≡ 2
unfolding ready_to_propose_schedule
ready-two r h = ground arith

agreed : (r : Request) → ready_to_coordinate r ≡ true → Agreed r
agreed r h =
    let (no_date, dated, proposable, answered) = ready-parts r h in
    let (d, e) = is_some-some r.proposed_run_date dated in
    let answered' = subst (λ o. all (answers o) r.parties ≡ true) e answered in
    record {
      date = d;
      proposed = e;
      no_date = is_none-none r.run_date no_date;
      two = ready-two r proposable;
      consents =
          all-All Consents (answers (some d)) r.parties (answers-Consents (some d)) answered';
      same_date =
          all-All (λ p. p.schedule_approved_date ≡ some d) (answers (some d)) r.parties
            (answers-same_date d) answered';
    }

ready : (r : Request) → ready_to_propose_schedule r ≡ true → Agreed r → ready_to_coordinate r ≡ true
unfolding ready_to_coordinate
ready r h a =
    let answered = agreed-answers a.date r.parties a.consents a.same_date in
    let answered' = subst (λ o. all (answers o) r.parties ≡ true) (sym a.proposed) answered in
    and_all (is_none r.run_date) (is_some r.proposed_run_date) (ready_to_propose_schedule r)
      (all (answers r.proposed_run_date) r.parties) (rw a.no_date) (rw a.proposed) h answered'

-- `ready_to_coordinate` behind `ready_to_propose_schedule`.
pub ready_to_coordinate-Agreed :
    (r : Request)
    → (ready_to_coordinate r ≡ true) ↔ ((ready_to_propose_schedule r ≡ true) × Agreed r)
ready_to_coordinate-Agreed r = (λ h. ((ready-parts r h).2, agreed r h), λ (h, a). ready r h a)
