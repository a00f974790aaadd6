-- ===== src/Commands/Approving/Consent.antt =====
-- src/application/commands.ts: whose approval `approve_self` and `approve_schedule` record.
use zolo.Prelude.{
  ℕ, String, true, false, Option, none, some, List, [], ◌∷◌, ◌≡◌, ◌≢◌, refl, sym, subst, arith, ok,
  ok_injective, Bool-cases, Result-cases, inl, inr, nat_eq, string_eq, option_eq, ◌==◌, eq_sound,
  eq_complete, and_both, and_left, is_none, is_some, or_else, update,
}
use zolo.Domain.{Party, Request, Context}
use zolo.Policies.Intents.{explicit_approval}
use zolo.Policies.Parties.{own_party}
use zolo.Policies.Readiness.{has_approved}
use zolo.Commands.Base.{Env, message_text}
use zolo.Commands.Approving.{
  approves_self, approve_party, approve_self_command, approves_date, schedule_party,
  approve_proposed, approve_schedule_command,
}

either_some : (o : Option ℕ) (n : ℕ) → is_some (or_else o (some n)) ≡ true
either_some none n = refl
either_some (some m) n = refl

-- The same list, but that the parties of a phone may differ, and each of these has `P`.
abbrev pub OwnOnly : (Party → Type 0) → String → List Party → List Party → Type 0
OwnOnly P phone [] [] = Unit
OwnOnly P phone [] (q ∷ qs) = ⊥
OwnOnly P phone (p ∷ ps) [] = ⊥
OwnOnly P phone (p ∷ ps) (q ∷ qs) =
    ((p.phone ≡ phone → P q) × (p.phone ≢ phone → q ≡ p)) × OwnOnly P phone ps qs

update-OwnOnly :
    (P : Party → Type 0) (phone : String) (f : Party → Party) (ps : List Party)
    → ((p : Party) → p.phone ≡ phone → P (f p))
    → OwnOnly P phone ps (update (λ p. p.phone == phone) f ps)
update-OwnOnly P phone f [] keep = tt
update-OwnOnly P phone f (p ∷ ps) keep = elim (Bool-cases (p.phone == phone)) [
  | inl own ↦ rw own (
    (λ e. keep p e, λ ne. absurd (ne (eq_sound p.phone phone own))),
    update-OwnOnly P phone f ps keep,
  )
  | inr foreign ↦ rw foreign (
    (λ e. absurd (ground (arith, eq_complete p.phone phone e)), λ _. refl),
    update-OwnOnly P phone f ps keep,
  )
]

approved_own :
    (e : Env) (phone : String) (p : Party)
    → p.phone ≡ phone
    → has_approved (approve_party e phone p) ≡ true
approved_own e phone p own =
    and_both (is_some (or_else p.approved_at (some e.now.instant))) (phone == p.phone)
      (either_some p.approved_at e.now.instant) (eq_complete phone p.phone (sym own))

-- approve_self succeeds only on words of explicit consent; then every party of the customer has
-- approved in person, and every other party and the rest of the request are as they were.
pub approve_self_command-OwnOnly :
    (e : Env) (ctx : Context) (r r' : Request)
    → approve_self_command e ctx r ≡ ok r'
    → (explicit_approval e.nfkc (message_text ctx) ≡ true)
      × (r' ≡ record r { parties = r'.parties })
      × OwnOnly (λ q. has_approved q ≡ true) ctx.conversation.phone r.parties r'.parties
unfolding approve_self_command approves_self
approve_self_command-OwnOnly e ctx r r' h = elim (Bool-cases (approves_self e ctx)) [
  | inr mute ↦ absurd (let k = rw (mute, approve_self_command) at h in cc)
  | inl consent ↦
      let phone = ctx.conversation.phone in
      let same = ok_injective (rw (consent, approve_self_command) at h) in
      (
        and_left (explicit_approval e.nfkc (message_text ctx)) _ consent,
        subst (λ x. x ≡ record r { parties = x.parties }) same refl,
        subst (λ x. OwnOnly (λ q. has_approved q ≡ true) phone r.parties x.parties) same
            (update-OwnOnly (λ q. has_approved q ≡ true) phone (approve_party e phone) r.parties
              (λ p own. approved_own e phone p own)),
      )
]

scheduled_by :
    (e : Env) (ctx : Context) (date : Option ℕ) (r r' : Request) (o : Option ℕ)
    → approve_proposed e ctx date r o ≡ ok r'
    → (d : ℕ) × (o ≡ some d)
      × (approves_date e ctx date d ≡ true)
      × (own : Party) × (own_party r ctx.conversation.phone none ≡ ok own)
      × (is_none own.approved_at ≡ false)
      × (r' ≡ record r {
        parties = update (λ p. p.phone == ctx.conversation.phone) (schedule_party e r) r.parties;
      })
unfolding approve_proposed
scheduled_by e ctx date r r' none h = absurd (cc)
scheduled_by e ctx date r r' (some d) h = elim (Bool-cases (approves_date e ctx date d)) [
  | inr mute ↦ absurd (let k = rw (mute, approve_proposed) at h in cc)
  | inl consent ↦ elim (Result-cases (own_party r ctx.conversation.phone none)) [
    | inr (f, stranger) ↦ absurd (let k = rw (consent, stranger, approve_proposed) at h in cc)
    | inl (own, found) ↦ elim (Bool-cases (is_none own.approved_at)) [
      | inl unknown ↦ absurd (let k = rw (consent, found, unknown, approve_proposed) at h in cc)
      | inr known ↦ (
        d,
        refl,
        consent,
        own,
        found,
        known,
        sym (ok_injective (rw (consent, found, known, approve_proposed) at h)),
      )
    ]
  ]
]

-- approve_schedule succeeds only when the command names the date that stands proposed, the
-- customer consents to it in words that name the date or answer a question that did, and the
-- customer has approved its own part; it then records that date for the parties of the customer
-- and leaves every other party and the rest of the request as they were.
pub approve_schedule_command-OwnOnly :
    (e : Env) (ctx : Context) (date : Option ℕ) (r r' : Request)
    → approve_schedule_command e ctx date r ≡ ok r'
    → (d : ℕ) × (r.proposed_run_date ≡ some d)
      × (approves_date e ctx date d ≡ true)
      × (own : Party) × (own_party r ctx.conversation.phone none ≡ ok own)
      × (is_none own.approved_at ≡ false)
      × (r' ≡ record r { parties = r'.parties })
      × OwnOnly (λ q. q.schedule_approved_date ≡ some d) ctx.conversation.phone r.parties r'.parties
unfolding approve_schedule_command
approve_schedule_command-OwnOnly e ctx date r r' h =
    let phone = ctx.conversation.phone in
    let (d, proposed, consent, own, found, known, same) =
      scheduled_by e ctx date r r' r.proposed_run_date h in
    (
      d,
      proposed,
      consent,
      own,
      found,
      known,
      subst (λ x. x ≡ record r { parties = x.parties }) (sym same) refl,
      subst (λ x. OwnOnly (λ q. q.schedule_approved_date ≡ some d) phone r.parties x.parties)
          (sym same)
          (update-OwnOnly (λ q. q.schedule_approved_date ≡ some d) phone (schedule_party e r)
            r.parties (λ p _. proposed)),
    )
