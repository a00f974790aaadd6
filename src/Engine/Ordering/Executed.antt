-- ===== src/Engine/Ordering/Executed.antt =====
-- src/application/engine.ts: the commands of a plan that run, in their order.
use zolo.Prelude.{
  ℕ, Bool, true, ◌||◌, Option, List, [], ◌∷◌, ◌≡◌, refl, ap, ◌∙◌, Bool-cases, Option-cases, inl,
  inr, any, filter, All, filter-All, and_both, and_left, and_right, some, false, ◌≢◌, ◌⊎◌, find,
  nat_eq, string_eq, option_eq, ◌==◌, Mem, All-map, any-Mem, Mem-any, filter-split, some_injective,
  eq_sound, eq_complete, sym, subst,
}
use zolo.Domain.{
  Command, details, counterparty, DetailsCommand, CounterpartyCommand, Context, Role, same_role,
  same_role_sound, same_role_complete, Party, Request,
}
use zolo.Engine.Ordering.{receiver_details, links, ordered, actor_role, is_executable, executable}
use zolo.Engine.Ordering.Dependency.{placed, linked_first, any-ordered, ordered-linked_first}

-- A test that lets every command pass that links a second party.
abbrev KeepsLinks : (Command → Bool) → Type 0
KeepsLinks p = (number : Option ℕ) (c : Command) → links number c ≡ true → p c ≡ true

is_executable-KeepsLinks : (ctx : Context) (cs : List Command) → KeepsLinks (is_executable ctx cs)
is_executable-KeepsLinks ctx cs number (counterparty c) h = refl
is_executable-KeepsLinks ctx cs number c h = absurd (cc)

any-filter :
    (p : Command → Bool) (number : Option ℕ) (cs : List Command)
    → KeepsLinks p
    → any (links number) (filter p cs) ≡ any (links number) cs
any-filter p number [] keeps = refl
any-filter p number (c ∷ cs) keeps = elim (Bool-cases (p c)) [
  | inl passes ↦ rw (passes) (ap (λ b. links number c || b) (any-filter p number cs keeps))
  | inr fails ↦ elim (Bool-cases (links number c)) [
    | inl linked ↦ absurd (let k = keeps number c linked in cc)
    | inr unlinked ↦ rw (fails, unlinked) (any-filter p number cs keeps)
  ]
]

placed-filter :
    (p : Command → Bool) (before rest : List Command) (c : Command)
    → KeepsLinks p
    → placed (filter p before) (filter p rest) c ≡ placed before rest c
placed-filter p before rest c keeps = elim (Option-cases (receiver_details c)) [
  | inl e ↦ rw (e, placed) refl
  | inr (number, e) ↦
      rw (e, placed, any-filter p number before keeps, any-filter p number rest keeps) refl
]

linked_first-filter :
    (p : Command → Bool) (before cs : List Command)
    → KeepsLinks p
    → linked_first before cs ≡ true
    → linked_first (filter p before) (filter p cs) ≡ true
linked_first-filter p before [] keeps h = refl
linked_first-filter p before (c ∷ cs) keeps h =
    let first = and_left (placed before cs c) (linked_first (c ∷ before) cs) h in
    let k =
      linked_first-filter p (c ∷ before) cs keeps
        (and_right (placed before cs c) (linked_first (c ∷ before) cs) h) in
    elim (Bool-cases (p c)) [
      | inl passes ↦
          rw passes (and_both _ _ (placed-filter p before cs c keeps ∙ first) (rw passes at k))
      | inr fails ↦ rw fails (rw fails at k)
    ]

-- The speaker's part in the request of a number: the first party of its phone.
pub record Speaker (ctx : Context) (number : Option ℕ) (role : Role) : Type 0 where
  pub request : Request
  pub found : find (λ r. some r.number == number) ctx.requests ≡ some request
  pub party : Party
  pub own : find (λ p. p.phone == ctx.conversation.phone) request.parties ≡ some party
  pub part : party.role ≡ role

-- Details that name a role other than the speaker's in a request whose second party the plan
-- links.
pub data Foreign (ctx : Context) (cs : List Command) : Command → Type 0 where
  foreign :
      {d : DetailsCommand} {role actor : Role} {k : CounterpartyCommand}
      → d.role ≡ some role
      → Mem (counterparty k) cs
      → k.request_number ≡ d.request_number
      → Speaker ctx d.request_number actor
      → actor ≢ role
      → Foreign ctx cs (details d)

actor_role-Speaker :
    (ctx : Context) (number : Option ℕ) (role : Role)
    → actor_role ctx number ≡ some role
    → Speaker ctx number role
actor_role-Speaker ctx number role h =
    elim (Option-cases (find (λ r. some r.number == number) ctx.requests)) [
      | inl lost ↦ absurd (let k = rw (lost, actor_role) at h in cc)
      | inr (r, found) ↦
          elim (Option-cases (find (λ p. p.phone == ctx.conversation.phone) r.parties)) [
            | inl lost ↦ absurd (let k = rw (found, lost, actor_role) at h in cc)
            | inr (p, own) ↦ record {
              request = r;
              found = found;
              party = p;
              own = own;
              part = some_injective (rw (found, own, actor_role) at h);
            }
          ]
    ]

Speaker-actor_role :
    (ctx : Context) (number : Option ℕ) (role : Role)
    → Speaker ctx number role
    → actor_role ctx number ≡ some role
Speaker-actor_role ctx number role s = rw (s.found, s.own, actor_role) (ap some s.part)

linked_by :
    (number : Option ℕ) (c : Command)
    → links number c ≡ true
    → (k : CounterpartyCommand) × (c ≡ counterparty k) × (k.request_number ≡ number)
linked_by number (counterparty k) h = (k, refl, eq_sound k.request_number number h)
linked_by number c h = absurd (cc)

-- The commands that the test stops are the foreign ones.
stopped-Foreign :
    (ctx : Context) (cs : List Command) (c : Command)
    → is_executable ctx (ordered cs) c ≡ false
    → Foreign ctx cs c
stopped-Foreign ctx cs (details d) h = elim (Option-cases d.role) [
  | inl e ↦ absurd (let k = rw (e, is_executable) at h in cc)
  | inr (role, e) ↦ elim (Bool-cases (any (links d.request_number) (ordered cs))) [
    | inr unlinked ↦ absurd (let k = rw (e, unlinked, is_executable) at h in cc)
    | inl linked ↦ elim (Option-cases (actor_role ctx d.request_number)) [
      | inl no_part ↦ absurd (let k = rw (e, linked, no_part, is_executable) at h in cc)
      | inr (actor, part) ↦
          let apart : same_role actor role ≡ false = rw (e, linked, part, is_executable) at h in
          let (c, there, test) =
            any-Mem (links d.request_number) cs
              (sym (any-ordered (links d.request_number) cs) ∙ linked) in
          let (k, is, number) = linked_by d.request_number c test in
          foreign {k = k} e (subst (λ x. Mem x cs) is there) number
            (actor_role-Speaker ctx d.request_number actor part)
            (λ same. absurd (let l = same_role_complete actor role same in cc))
    ]
  ]
]
stopped-Foreign ctx cs c h = absurd (cc)

Foreign-stopped :
    (ctx : Context) (cs : List Command) (c : Command)
    → Foreign ctx cs c
    → is_executable ctx (ordered cs) c ≡ false
Foreign-stopped ctx cs _ (foreign {d} {role} {actor} {k} e there number speaker apart) =
    let linked =
      any-ordered (links d.request_number) cs
      ∙ Mem-any (links d.request_number) cs (counterparty k) there
          (eq_complete k.request_number d.request_number number) in
    elim (Bool-cases (same_role actor role)) [
      | inl same ↦ absurd (apart (same_role_sound actor role same))
      | inr unlike ↦
          rw (e, linked, Speaker-actor_role ctx d.request_number actor speaker, is_executable)
            unlike
    ]

-- Of the commands of a plan that run, the details of a receiver stand behind a counterparty
-- command of their request or none follows them; a command of the plan is left out only when it is
-- foreign, and no foreign command runs: details that name another role than the one of the
-- speaker's first party in the request, whose second party the plan links.
pub executable-ordered :
    (ctx : Context) (cs : List Command)
    → (linked_first [] (executable ctx cs) ≡ true)
      × All (λ c. ¬ Foreign ctx cs c) (executable ctx cs)
      × All (λ c. Mem c (executable ctx cs) ⊎ Foreign ctx cs c) (ordered cs)
unfolding executable
executable-ordered ctx cs =
    let os = ordered cs in
    let runs = is_executable ctx os in
    (
      linked_first-filter runs [] os (is_executable-KeepsLinks ctx os) (ordered-linked_first cs).0,
      All-map (λ c. runs c ≡ true) (λ c. ¬ Foreign ctx cs c) (filter runs os)
          (λ c h f. absurd (let k = Foreign-stopped ctx cs c f in cc)) (filter-All runs os),
      All-map (λ c. Mem c (filter runs os) ⊎ (runs c ≡ false))
          (λ c. Mem c (filter runs os) ⊎ Foreign ctx cs c) os
          (λ c. elim [ inl m ↦ inl m | inr f ↦ inr (stopped-Foreign ctx cs c f) ])
          (filter-split runs os),
    )
