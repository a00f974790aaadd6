-- ===== src/Integrations/Attempts.antt =====
-- src/application/runtime.ts: after three attempts at their times an event is delivered or given up.
use zolo.Prelude.{
  ℕ, suc, ◌+◌, ◌*◌, ◌^◌, ◌-◌, ◌≤◌, ◌<◌, Bool, true, false, not, ◌&&◌, ◌||◌, Option, none, some,
  List, ◌≡◌, refl, sym, ap, ◌∙◌, subst, arith, Bool-cases, Option-cases, ◌⊎◌, inl, inr, nat_eq,
  ◌==◌, eq_complete, leb, find, find_holds, find-update_hit, eq_sound, update, and_left, and_right,
  and_both,
}
use zolo.Integrations.{
  DeliveryState, pending, delivered, dead_letter, terminal, Delivery, is_pending, is_active, is_row,
  is_due, is_blocked, is_claimable, is_claimed, begin, claim, Answer, done, failed, max_attempts,
  is_running, bury, after_answer, Adapters, settle, deliver_integration,
}
use zolo.Integrations.Order.{
  blocked-update, claimed-free, pending-undelivered, active-undelivered, running-active, SameEvent,
  after_answer-SameEvent,
}

-- Nothing is tried any more.
abbrev pub is_settled : DeliveryState → Bool
is_settled delivered = true
is_settled dead_letter = true
is_settled _ = false

-- What an attempt makes of its row: it is settled, or waits for the next of three attempts.
record Waits (now attempts : ℕ) (d : Delivery) : Type 0 where
  state : d.state ≡ pending
  counted : d.attempts ≡ attempts
  few : attempts < 3
  next : d.next_attempt_at ≡ some (now + 2 * 2 ^ (attempts - 1))

Attempted : ℕ → ℕ → Delivery → Type 0
Attempted now attempts d = (is_settled d.state ≡ true) ⊎ Waits now attempts d

settled_now :
    (now attempts : ℕ) (d : Delivery) → is_settled d.state ≡ true → Attempted now attempts d
unfolding Attempted
settled_now now attempts d h = inl h

few_left : (a b : Bool) (n : ℕ) → (a || b || leb 3 n) ≡ false → n < 3
few_left a b n h = ground arith

after_answer-Attempted :
    (now : ℕ) (answer : Answer) (d : Delivery)
    → Attempted now d.attempts (after_answer now d.attempts answer d)
unfolding after_answer Attempted
after_answer-Attempted now done d = inl refl
after_answer-Attempted now (failed may_retry ambiguous code) d =
    elim (Bool-cases (ambiguous || not may_retry || leb max_attempts d.attempts)) [
      | inl over ↦ rw (over, after_answer) (inl refl)
      | inr again ↦
          rw (again, after_answer)
            (inr (record {
              state = refl;
              counted = refl;
              few = few_left ambiguous (not may_retry) d.attempts again;
              next = refl;
            }))
    ]

after_answer-id :
    (now attempts : ℕ) (answer : Answer) (d : Delivery)
    → (after_answer now attempts answer d).id ≡ d.id
unfolding after_answer
after_answer-id now attempts done d = refl
after_answer-id now attempts (failed may_retry ambiguous code) d =
    elim (Bool-cases (ambiguous || not may_retry || leb max_attempts attempts)) [
      | inl over ↦ rw (over, after_answer) refl
      | inr again ↦ rw (again, after_answer) refl
    ]

-- The row behind the attempt, and that still nothing stands before it.
record Behind (now id attempts : ℕ) (d : Delivery) (rows : List Delivery) : Type 0 where
  row : Delivery
  found : find (is_row id) rows ≡ some row
  same : SameEvent d row
  attempted : Attempted now attempts row
  free : is_blocked row.integration row.event_id rows ≡ false

module _ (now id : ℕ) (rows : List Delivery) (d : Delivery) (found : find (is_row id) rows ≡ some d)
    (may : is_claimable now rows d ≡ true) where
  claimed_rows : List Delivery
  claimed_rows = update (is_claimed now id rows) (begin now) rows

  own : d.id ≡ id
  own = eq_sound d.id id (find_holds (is_row id) rows d found)

  begun : find (is_row id) claimed_rows ≡ some (begin now d)
  unfolding claimed_rows
  begun =
      find-update_hit (is_row id) (is_claimed now id rows) (begin now) rows d
        (λ x k. and_left (x.id == id) (is_claimable now rows x) k)
        (λ x k. and_left (x.id == id) (is_claimable now rows x) k) found
        (and_both (d.id == id) (is_claimable now rows d) (eq_complete d.id id own) may)

  free-begun : is_blocked d.integration d.event_id claimed_rows ≡ false
  unfolding claimed_rows
  free-begun =
      blocked-update (is_claimed now id rows) (begin now) d.integration d.event_id rows
        (record {
          integration = λ x. refl;
          event_id = λ x. refl;
          undelivered = λ x k. pending-undelivered x.state (claimed-free now id rows x k).0;
        })
        (claimed-free now id rows d
          (and_both (d.id == id) (is_claimable now rows d) (eq_complete d.id id own) may)).1

  -- A write to the row that runs.
  Behind-write :
      (f : Delivery → Delivery)
      → ((x : Delivery) → (f x).id ≡ x.id)
      → ((x : Delivery) → SameEvent x (f x))
      → Attempted now (suc d.attempts) (f (begin now d))
      → Behind now id (suc d.attempts) d (update (is_running d.id) f claimed_rows)
  Behind-write f same_id same attempted = record {
    row = f (begin now d);
    found =
        find-update_hit (is_row id) (is_running d.id) f claimed_rows (begin now d)
          (λ x k.
            subst (λ i. (x.id == i) ≡ true) own (and_left (x.id == d.id) (is_active x.state) k))
          (λ x k.
            subst (λ j. (j == id) ≡ true) (sym (same_id x))
              (subst (λ i. (x.id == i) ≡ true) own (and_left (x.id == d.id) (is_active x.state) k)))
          begun (and_both (d.id == d.id) true (eq_complete d.id d.id refl) refl);
    same = record {
      integration = (same (begin now d)).integration;
      event_id = (same (begin now d)).event_id;
    };
    attempted = attempted;
    free =
        rw ((same (begin now d)).integration, (same (begin now d)).event_id)
          (blocked-update (is_running d.id) f d.integration d.event_id claimed_rows
            (record {
              integration = λ x. (same x).integration;
              event_id = λ x. (same x).event_id;
              undelivered = λ x k. active-undelivered x.state (running-active d.id x k);
            })
            free-begun);
  }

  claim-begun : claim now id rows ≡ (some (begin now d), claimed_rows)
  unfolding claim claimed_rows
  claim-begun = rw (found, may, claim) refl

  settle-Behind :
      (adapters : Adapters)
      → Behind now id (suc d.attempts) d (settle adapters now (begin now d) claimed_rows)
  unfolding settle
  settle-Behind adapters = elim (Option-cases (adapters (begin now d))) [
    | inl unknown ↦
        rw (unknown, settle)
          (Behind-write (bury terminal "adapter_not_registered") (λ x. refl)
            (λ x. record { integration = refl; event_id = refl })
            (settled_now now (suc d.attempts) _ refl))
    | inr (answer, called) ↦ elim (Bool-cases (not (d.schema_version == 1))) [
      | inl foreign ↦
          rw (called, foreign, settle)
            (Behind-write (bury terminal "unsupported_schema_version") (λ x. refl)
              (λ x. record { integration = refl; event_id = refl })
              (settled_now now (suc d.attempts) _ refl))
      | inr supported ↦
          rw (called, supported, settle)
            (Behind-write (after_answer now (suc d.attempts) answer)
              (after_answer-id now (suc d.attempts) answer)
              (after_answer-SameEvent now (suc d.attempts) answer)
              (after_answer-Attempted now answer (begin now d)))
    ]
  ]

  deliver-Behind :
      (adapters : Adapters)
      → Behind now id (suc d.attempts) d (deliver_integration adapters now id rows).1
  unfolding deliver_integration
  deliver-Behind adapters = rw claim-begun (settle-Behind adapters)

settled-pending : (s : DeliveryState) → is_settled s ≡ true → is_pending s ≡ false
settled-pending delivered h = refl
settled-pending dead_letter h = refl
settled-pending s h = absurd (cc)

-- An attempt at a row that is settled changes nothing.
deliver-settled :
    (adapters : Adapters) (now id : ℕ) (rows : List Delivery) (d : Delivery)
    → find (is_row id) rows ≡ some d
    → is_settled d.state ≡ true
    → (deliver_integration adapters now id rows).1 ≡ rows
unfolding deliver_integration claim
deliver-settled adapters now id rows d found over =
    let barred : is_claimable now rows d ≡ false = rw (settled-pending d.state over) refl in
    let same : claim now id rows ≡ (none, rows) = rw (found, barred, claim) refl in rw same refl

-- The outcome behind an attempt: the event is settled, or is claimable at the next attempt's time.
abbrev pub Settled : ℕ → List Delivery → Type 0
Settled id rows = (d : Delivery) × (find (is_row id) rows ≡ some d) × (is_settled d.state ≡ true)

record Claimable (id attempts time : ℕ) (rows : List Delivery) : Type 0 where
  row : Delivery
  found : find (is_row id) rows ≡ some row
  may : (now : ℕ) → time ≤ now → is_claimable now rows row ≡ true
  counted : row.attempts ≡ attempts

one_less : (m n : ℕ) → m ≡ n → suc m - 1 ≡ n
one_less m n h = omega (arith, h)

due_later : (next : Option ℕ) (t t' : ℕ) → t ≤ t' → is_due t next ≡ true → is_due t' next ≡ true
due_later none t t' le h = refl
due_later (some n) t t' le h = ground arith

claimable_later :
    (t t' : ℕ) (rows : List Delivery) (d : Delivery)
    → t ≤ t'
    → is_claimable t rows d ≡ true
    → is_claimable t' rows d ≡ true
claimable_later t t' rows d le h =
    let pending_due = and_left (is_pending d.state && is_due t d.next_attempt_at) _ h in
    and_both (is_pending d.state && is_due t' d.next_attempt_at) _
      (and_both (is_pending d.state) (is_due t' d.next_attempt_at)
        (and_left (is_pending d.state) _ pending_due)
        (due_later d.next_attempt_at t t' le (and_right (is_pending d.state) _ pending_due)))
      (and_right (is_pending d.state && is_due t d.next_attempt_at) _ h)

leb_of : (a b : ℕ) → a ≤ b → leb a b ≡ true
leb_of a b h = ground arith

claimable_at :
    (t : ℕ) (next : ℕ) (rows : List Delivery) (d : Delivery)
    → d.state ≡ pending
    → d.next_attempt_at ≡ some next
    → next ≤ t
    → is_blocked d.integration d.event_id rows ≡ false
    → is_claimable t rows d ≡ true
claimable_at t next rows d waits due later free = rw (waits, due, free, leb_of next t later) refl

attempt :
    (adapters : Adapters) (now id attempts time : ℕ) (rows : List Delivery)
    → time ≤ now
    → Claimable id attempts time rows
    → Settled id (deliver_integration adapters now id rows).1
      ⊎ ((suc attempts < 3)
          × Claimable id
              (suc attempts)
              (now + 2 * 2 ^ attempts)
              (deliver_integration adapters now id rows).1)
unfolding Attempted
attempt adapters now id attempts time rows le c =
    let b = deliver-Behind now id rows c.row c.found (c.may now le) adapters in
    elim b.attempted [
      | inl over ↦ inl (b.row, b.found, over)
      | inr w ↦ inr (
        omega (arith, w.few, c.counted),
        record {
          row = b.row;
          found = b.found;
          may = λ t later.
              claimable_at t (now + 2 * 2 ^ attempts) (deliver_integration adapters now id rows).1
                b.row w.state
                (w.next
                  ∙ ap (λ n. some (now + 2 * 2 ^ n)) (one_less c.row.attempts attempts c.counted))
                later b.free;
          counted = w.counted ∙ ap suc c.counted;
        },
      )
    ]

still-Settled :
    (adapters : Adapters) (now id : ℕ) (rows : List Delivery)
    → Settled id rows
    → Settled id (deliver_integration adapters now id rows).1
still-Settled adapters now id rows (d, found, over) =
    subst (Settled id) (sym (deliver-settled adapters now id rows d found over)) (d, found, over)

-- When an event can be claimed, three attempts, each no sooner than the delay that the one before
-- it sets, leave it delivered or given up, whatever the adapter answers and whatever attempts it
-- had.
pub deliver_integration-Settled :
    (adapters : Adapters) (id t₁ t₂ t₃ : ℕ) (rows : List Delivery) (d : Delivery)
    → find (is_row id) rows ≡ some d
    → is_claimable t₁ rows d ≡ true
    → t₁ + 2 * 2 ^ d.attempts ≤ t₂
    → t₂ + 2 * 2 ^ suc d.attempts ≤ t₃
    → (let r₁ = (deliver_integration adapters t₁ id rows).1 in
        let r₂ = (deliver_integration adapters t₂ id r₁).1 in
        Settled id (deliver_integration adapters t₃ id r₂).1)
deliver_integration-Settled adapters id t₁ t₂ t₃ rows d found may second third =
    let r₁ = (deliver_integration adapters t₁ id rows).1 in
    let r₂ = (deliver_integration adapters t₂ id r₁).1 in
    elim (attempt adapters t₁ id d.attempts t₁ rows (omega arith) (record {
      row = d;
      found = found;
      may = λ t later. claimable_later t₁ t rows d later may;
      counted = refl;
    })) [
      | inl over ↦ still-Settled adapters t₃ id r₂ (still-Settled adapters t₂ id r₁ over)
      | inr (few, c) ↦ elim (attempt adapters t₂ id (suc d.attempts) _ r₁ second c) [
        | inl over ↦ still-Settled adapters t₃ id r₂ over
        | inr (fewer, c') ↦ elim (attempt adapters t₃ id (suc (suc d.attempts)) _ r₂ third c') [
          | inl over ↦ over
          | inr (none_left, _) ↦ absurd (omega arith)
        ]
      ]
    ]
