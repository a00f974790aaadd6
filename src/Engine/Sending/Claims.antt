-- ===== src/Engine/Sending/Claims.antt =====
-- src/application/engine.ts: what the first transaction of `send` does to the outbox.
use zolo.Prelude.{
  ℕ, ◌<◌, Bool, true, false, not, ◌||◌, Option, none, some, List, [], ◌∷◌, ◌≡◌, ◌≢◌, refl, sym, ap,
  ◌∙◌, subst, arith, Bool-cases, Option-cases, inl, inr, ok, ok_injective, nat_eq, string_eq, ◌==◌,
  find, find-update_self, some_injective, update, All, All-update,
}
use zolo.Domain.{Mode, live, shadow, simulation}
use zolo.Store.Tables.{
  Config, Db, Outbound, SendState, sending, in_shadow, in_simulation, uncertain, dismissed,
}
use zolo.Store.Outbox.{is_operations_alert, default_chat}
use zolo.Engine.Sending.{
  Claim, skipped, reconcile, claimed, has_id, write_row, in_state, waiting_before, present,
  is_final, is_begun, is_formatting, may_receive, deliver_live, deliver_row, claim_row, claim,
}

-- A row that may still be delivered: it was not begun, and nothing ended it.
abbrev pub is_open : SendState → Bool
is_open s = not (is_final s || is_begun s)

-- `uses` counts the deliveries of a row: an open one has none.
abbrev pub Idle : (ℕ → ℕ) → Outbound → Type 0
Idle uses o = is_open o.state ≡ true → uses o.id ≡ 0

abbrev pub Below : ℕ → Outbound → Type 0
Below n o = o.id < n

-- What the database keeps when nothing is delivered.
pub record Keeps (db db' : Db) : Type 0 where
  pub fresh : db'.fresh ≡ db.fresh
  pub below : (n : ℕ) → All (Below n) db.outbox → All (Below n) db'.outbox
  pub idle : (uses : ℕ → ℕ) → All (Idle uses) db.outbox → All (Idle uses) db'.outbox

pub Keeps-refl : (db : Db) → Keeps db db
Keeps-refl db = record { fresh = refl; below = λ n h. h; idle = λ uses h. h }

pub Keeps-trans : (a b c : Db) → Keeps a b → Keeps b c → Keeps a c
Keeps-trans a b c h k = record {
  fresh = k.fresh ∙ h.fresh;
  below = λ n x. k.below n (h.below n x);
  idle = λ uses x. k.idle uses (h.idle uses x);
}

-- A write that leaves the identifier, and does not open a row.
abbrev pub Closes : (Outbound → Outbound) → Type 0
Closes f =
    (o : Outbound) → ((f o).id ≡ o.id) × ((is_open (f o).state ≡ true) → is_open o.state ≡ true)

pub write_row-Keeps :
    (id : ℕ) (f : Outbound → Outbound) (db : Db) → Closes f → Keeps db (write_row id f db)
write_row-Keeps id f db closes = record {
  fresh = refl;
  below = λ n.
      All-update (Below n) (has_id id) f db.outbox (λ o h. subst (λ i. i < n) (sym (closes o).0) h);
  idle = λ uses.
      All-update (Idle uses) (has_id id) f db.outbox
        (λ o h k. subst (λ i. uses i ≡ 0) (sym (closes o).0) (h ((closes o).1 k)));
}

pub in_state-Closes : (s : SendState) → is_open s ≡ false → Closes (in_state s)
in_state-Closes s closed o = (refl, λ k. absurd (cc))

pub present-Keeps : (match_id : Option ℕ) (db : Db) → Keeps db (present match_id db)
present-Keeps none db = Keeps-refl db
present-Keeps (some m) db = record { fresh = refl; below = λ n h. h; idle = λ uses h. h }

-- A delivery that begins: the row was open, and is not any more.
pub record Begins (id : ℕ) (db db' : Db) : Type 0 where
  pub row : Outbound
  pub found : find (has_id id) db.outbox ≡ some row
  pub open_row : is_open row.state ≡ true
  pub fresh : db'.fresh ≡ db.fresh
  pub below : (n : ℕ) → All (Below n) db.outbox → All (Below n) db'.outbox
  pub idle :
      (uses uses' : ℕ → ℕ)
      → ((j : ℕ) → j ≢ id → uses' j ≡ uses j)
      → All (Idle uses) db.outbox
      → All (Idle uses') db'.outbox

-- What a claim does.
abbrev pub Effect : ℕ → Db → Claim → Db → Type 0
Effect id db (claimed o) db' = Begins id db db'
Effect id db _ db' = Keeps db db'

ne_of_test : (a b : ℕ) → (a == b) ≡ false → a ≢ b
ne_of_test a b h = λ e. ground arith

Idle-write_row :
    (id : ℕ) (s : SendState) (rows : List Outbound) (uses uses' : ℕ → ℕ)
    → is_open s ≡ false
    → ((j : ℕ) → j ≢ id → uses' j ≡ uses j)
    → All (Idle uses) rows
    → All (Idle uses') (update (has_id id) (in_state s) rows)
Idle-write_row id s [] uses uses' closed same h = tt
Idle-write_row id s (o ∷ os) uses uses' closed same h = elim (Bool-cases (o.id == id)) [
  | inl hit ↦ rw hit (λ k. absurd (cc), Idle-write_row id s os uses uses' closed same h.1)
  | inr miss ↦ rw miss (
    λ k. same o.id (ne_of_test o.id id miss) ∙ h.0 k,
    Idle-write_row id s os uses uses' closed same h.1,
  )
]

sending-Begins :
    (id : ℕ) (o : Outbound) (db : Db)
    → find (has_id id) db.outbox ≡ some o
    → is_open o.state ≡ true
    → Begins id db (write_row id (in_state sending) db)
sending-Begins id o db found free = record {
  row = o;
  found = found;
  open_row = free;
  fresh = refl;
  below = (write_row-Keeps id (in_state sending) db (in_state-Closes sending refl)).below;
  idle = λ uses uses' same h. Idle-write_row id sending db.outbox uses uses' refl same h;
}

deliver_live-Effect :
    (bot : Mode) (config : Config) (id : ℕ) (o₀ o : Outbound) (db db' : Db) (c : Claim)
    → find (has_id id) db.outbox ≡ some o₀
    → is_open o₀.state ≡ true
    → deliver_live bot config id o db ≡ ok (c, db')
    → Effect id db c db'
unfolding deliver_live
deliver_live-Effect live config id o₀ o db db' c found free h =
    elim (Bool-cases (may_receive config o.phone)) [
      | inl may ↦
          subst (λ x. Effect id db x.0 x.1) (ok_injective (rw (may, deliver_live) at h))
            (sending-Begins id o₀ db found free)
      | inr barred ↦ absurd (let k = rw (barred, deliver_live) at h in cc)
    ]
deliver_live-Effect _ config id o₀ o db db' c found free h = absurd (cc)

ended :
    (s : SendState) (id : ℕ) (o : Outbound) (db : Db)
    → is_open s ≡ false
    → Keeps db (present o.match_id (write_row id (in_state s) db))
ended s id o db closed =
    Keeps-trans db (write_row id (in_state s) db) _
      (write_row-Keeps id (in_state s) db (in_state-Closes s closed))
      (present-Keeps o.match_id (write_row id (in_state s) db))

deliver_row-Effect :
    (m : Mode) (config : Config) (id : ℕ) (o₀ o : Outbound) (db db' : Db) (c : Claim)
    → find (has_id id) db.outbox ≡ some o₀
    → is_open o₀.state ≡ true
    → deliver_row m config id o db ≡ ok (c, db')
    → Effect id db c db'
unfolding deliver_row
deliver_row-Effect shadow config id o₀ o db db' c found free h =
    subst (λ x. Effect id db x.0 x.1) (ok_injective h) (ended in_shadow id o db refl)
deliver_row-Effect simulation config id o₀ o db db' c found free h =
    subst (λ x. Effect id db x.0 x.1) (ok_injective h) (ended in_simulation id o db refl)
deliver_row-Effect live config id o₀ o db db' c found free h =
    deliver_live-Effect config.bot_mode config id o₀ o db db' c found free h

claim_row-Effect :
    (config : Config) (id : ℕ) (o₀ o : Outbound) (db db' : Db) (c : Claim)
    → find (has_id id) db.outbox ≡ some o₀
    → o₀.state ≡ o.state
    → claim_row config id o db ≡ ok (c, db')
    → Effect id db c db'
unfolding claim_row
claim_row-Effect config id o₀ o db db' c found same h =
    elim (Bool-cases (is_formatting o.format_state)) [
      | inl busy ↦ absurd (let k = rw (busy, claim_row) at h in cc)
      | inr worded ↦ elim (Bool-cases (is_final o.state)) [
        | inl over ↦
            subst (λ x. Effect id db x.0 x.1) (ok_injective (rw (worded, over, claim_row) at h))
              (Keeps-refl db)
        | inr unfinished ↦ elim (Bool-cases (waiting_before id o.phone db.outbox)) [
          | inl behind ↦ absurd (let k = rw (worded, unfinished, behind, claim_row) at h in cc)
          | inr first ↦ elim (Bool-cases (is_begun o.state)) [
            | inl begun ↦
                subst (λ x. Effect id db x.0 x.1)
                  (ok_injective (rw (worded, unfinished, first, begun, claim_row) at h))
                  (write_row-Keeps id (in_state uncertain) db (in_state-Closes uncertain refl))
            | inr untouched ↦
                deliver_row-Effect o.mode config id o₀ o db db' c found
                  (rw (same, unfinished, untouched) refl)
                  (rw (worded, unfinished, first, untouched, claim_row) at h)
          ]
        ]
      ]
    ]

-- A write before the claim that keeps the row as it counts.
behind-Effect :
    (id : ℕ) (o : Outbound) (db db₁ db' : Db) (c : Claim)
    → find (has_id id) db.outbox ≡ some o
    → Keeps db db₁
    → (Begins id db₁ db' → is_open o.state ≡ true)
    → Effect id db₁ c db'
    → Effect id db c db'
behind-Effect id o db db₁ db' (claimed o') found k free b = record {
  row = o;
  found = found;
  open_row = free b;
  fresh = b.fresh ∙ k.fresh;
  below = λ n h. b.below n (k.below n h);
  idle = λ uses uses' same h. b.idle uses uses' same (k.idle uses h);
}
behind-Effect id o db db₁ db' skipped found k free e = Keeps-trans db db₁ db' k e
behind-Effect id o db db₁ db' reconcile found k free e = Keeps-trans db db₁ db' k e

pub claim-Effect :
    (config : Config) (id : ℕ) (db db' : Db) (c : Claim)
    → claim config id db ≡ ok (c, db')
    → Effect id db c db'
unfolding claim
claim-Effect config id db db' c h = elim (Option-cases (find (has_id id) db.outbox)) [
  | inl missing ↦
      subst (λ x. Effect id db x.0 x.1) (ok_injective (rw (missing, claim) at h)) (Keeps-refl db)
  | inr (o, found) ↦ elim (Bool-cases (is_operations_alert o.text)) [
    | inr plain ↦ claim_row-Effect config id o o db db' c found refl (rw (found, plain, claim) at h)
    | inl alert ↦ elim (Bool-cases (o.phone == config.admin_phone)) [
      | inr foreign ↦
          subst (λ x. Effect id db x.0 x.1) (ok_injective (rw (found, alert, foreign, claim) at h))
            (write_row-Keeps id (in_state dismissed) db (in_state-Closes dismissed refl))
      | inl own ↦
          let chat = λ (x : Outbound). record x { chat_id = default_chat o.phone } in
          let db₁ = write_row id chat db in
          let there = find-update_self (has_id id) chat db.outbox o (λ x k. k) found in
          behind-Effect id o db db₁ db' c found (write_row-Keeps id chat db (λ x. (refl, λ k. k)))
            (λ b. rw (ap (λ x. x.state) (some_injective (sym there ∙ b.found))) b.open_row)
            (claim_row-Effect config id (chat o) (chat o) db₁ db' c there refl
              (rw (found, alert, own, claim) at h))
    ]
  ]
]
