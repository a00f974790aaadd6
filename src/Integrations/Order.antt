-- ===== src/Integrations/Order.antt =====
-- src/application/runtime.ts: the events of an integration are attempted in their order.
use zolo.Prelude.{
  ℕ, suc, ◌≤◌, ◌<◌, String, Bool, true, false, not, ◌&&◌, ◌||◌, List, [], ◌∷◌, ◌++◌, ◌≡◌, refl,
  arith, Bool-cases, Option-cases, inl, inr, nat_eq, string_eq, ◌==◌, ltb, leb, find, update, All,
  All-append, and_left, and_right,
}
use zolo.Integrations.{
  DeliveryState, pending, active, Delivery, is_pending, is_active, is_delivered, is_row,
  stands_before, is_blocked, is_claimable, begin, is_claimed, is_due, claim, Answer, done, failed,
  max_attempts, is_running, after_answer, Adapters, settle, is_stuck, released, recover, queued,
  enqueue,
}

-- The event was attempted.
abbrev pub is_started : Delivery → Bool
is_started d = not (is_pending d.state && d.attempts == 0)

-- Every earlier event of the integration was delivered before an event was attempted.
abbrev pub InOrder : List Delivery → Type 0
InOrder rows =
    All (λ d. is_started d ≡ true → is_blocked d.integration d.event_id rows ≡ false) rows

-- A worker claims a row, an adapter answers, stuck rows are released, and an event is queued.
pub data Step : List Delivery → List Delivery → Type 0 where
  claims : (rows : List Delivery) (now id : ℕ) → Step rows (claim now id rows).1
  answers :
      (rows : List Delivery) (adapters : Adapters) (now : ℕ) (d : Delivery)
      → Step rows (settle adapters now d rows)
  recovers : (rows : List Delivery) (now : ℕ) → Step rows (recover now rows)
  happens :
      (rows : List Delivery) (fresh event_id : ℕ) (names : List String)
      → All (λ (d : Delivery). d.event_id < event_id) rows
      → Step rows (enqueue fresh event_id names rows)

pub data Reach (start : List Delivery) : List Delivery → Type 0 where
  here : Reach start start
  onward : {rows rows' : List Delivery} → Reach start rows → Step rows rows' → Reach start rows'

-- A write that leaves the event alone, and that delivers rather than undoes.
pub record Forward (p : Delivery → Bool) (f : Delivery → Delivery) : Type 0 where
  pub integration : (d : Delivery) → (f d).integration ≡ d.integration
  pub event_id : (d : Delivery) → (f d).event_id ≡ d.event_id
  pub undelivered : (d : Delivery) → p d ≡ true → is_delivered d.state ≡ false

blocked_hit :
    (a b was now rest rest' : Bool)
    → (a && b && not was || rest) ≡ false
    → was ≡ false
    → (rest ≡ false → rest' ≡ false)
    → (a && b && not now || rest') ≡ false
blocked_hit a b true now rest rest' h undone k = absurd (cc)
blocked_hit true true false now rest rest' h undone k = absurd (cc)
blocked_hit true false false now rest rest' h undone k = k h
blocked_hit false b false now rest rest' h undone k = k h

or_later :
    (a rest rest' : Bool)
    → (a || rest) ≡ false
    → (rest ≡ false → rest' ≡ false)
    → (a || rest') ≡ false
or_later true rest rest' h k = absurd (cc)
or_later false rest rest' h k = k h

or_right : (a rest : Bool) → (a || rest) ≡ false → rest ≡ false
or_right true rest h = absurd (cc)
or_right false rest h = h

pub blocked-update :
    (p : Delivery → Bool) (f : Delivery → Delivery) (i : String) (e : ℕ) (rows : List Delivery)
    → Forward p f
    → is_blocked i e rows ≡ false
    → is_blocked i e (update p f rows) ≡ false
blocked-update p f i e [] w h = refl
blocked-update p f i e (d ∷ ds) w h = elim (Bool-cases (p d)) [
  | inl hit ↦
      rw (hit, w.integration d, w.event_id d)
        (blocked_hit (d.integration == i) (ltb d.event_id e) (is_delivered d.state) _
          (is_blocked i e ds) _ h (w.undelivered d hit) (blocked-update p f i e ds w))
  | inr miss ↦
      rw miss (or_later (stands_before i e d) (is_blocked i e ds) _ h (blocked-update p f i e ds w))
]

-- Where a write starts a row, nothing stood before the row.
abbrev Starts : List Delivery → (Delivery → Bool) → (Delivery → Delivery) → Type 0
Starts rows p f =
    (d : Delivery)
    → p d ≡ true
    → is_started (f d) ≡ true
    → (is_started d ≡ false → is_blocked d.integration d.event_id rows ≡ false)

abbrev Free : List Delivery → Delivery → Type 0
Free rows d = is_started d ≡ true → is_blocked d.integration d.event_id rows ≡ false

InOrder-part :
    (p : Delivery → Bool) (f : Delivery → Delivery) (rows ds : List Delivery)
    → Forward p f
    → Starts rows p f
    → All (Free rows) ds
    → All (Free (update p f rows)) (update p f ds)
InOrder-part p f rows [] w starts h = tt
InOrder-part p f rows (d ∷ ds) w starts h = elim (Bool-cases (p d)) [
  | inr miss ↦ rw miss (
    λ k. blocked-update p f d.integration d.event_id rows w (h.0 k),
    InOrder-part p f rows ds w starts h.1,
  )
  | inl hit ↦ rw hit (
    λ k.
        rw (w.integration d, w.event_id d)
          (blocked-update p f d.integration d.event_id rows w (elim (Bool-cases (is_started d)) [
            | inl before ↦ h.0 before
            | inr not_before ↦ starts d hit k not_before
          ])),
    InOrder-part p f rows ds w starts h.1,
  )
]

claimable_parts : (a b c : Bool) → (a && b && not c) ≡ true → (a ≡ true) × (c ≡ false)
claimable_parts true true false h = (refl, refl)
claimable_parts a b c h = absurd (cc)

pub claimed-free :
    (now id : ℕ) (rows : List Delivery) (d : Delivery)
    → is_claimed now id rows d ≡ true
    → (is_pending d.state ≡ true) × (is_blocked d.integration d.event_id rows ≡ false)
claimed-free now id rows d h =
    claimable_parts (is_pending d.state) (is_due now d.next_attempt_at)
      (is_blocked d.integration d.event_id rows)
      (and_right (d.id == id) (is_claimable now rows d) h)

pub pending-undelivered : (s : DeliveryState) → is_pending s ≡ true → is_delivered s ≡ false
pending-undelivered pending h = refl
pending-undelivered s h = absurd (cc)

pub active-undelivered : (s : DeliveryState) → is_active s ≡ true → is_delivered s ≡ false
active-undelivered active h = refl
active-undelivered s h = absurd (cc)

active-started :
    (s : DeliveryState) (none_yet : Bool)
    → is_active s ≡ true
    → not (is_pending s && none_yet) ≡ true
active-started active n h = refl
active-started s n h = absurd (cc)

InOrder-claim : (now id : ℕ) (rows : List Delivery) → InOrder rows → InOrder (claim now id rows).1
unfolding claim
InOrder-claim now id rows h = elim (Option-cases (find (is_row id) rows)) [
  | inl missing ↦ rw (missing, claim) h
  | inr (d, found) ↦ elim (Bool-cases (is_claimable now rows d)) [
    | inr barred ↦ rw (found, barred, claim) h
    | inl may ↦
        rw (found, may, claim)
          (InOrder-part (is_claimed now id rows) (begin now) rows rows
            (record {
              integration = λ x. refl;
              event_id = λ x. refl;
              undelivered = λ x k. pending-undelivered x.state (claimed-free now id rows x k).0;
            })
            (λ x k started unstarted. (claimed-free now id rows x k).1) h)
  ]
]

-- A write to rows that run, or did.
InOrder-active :
    (p : Delivery → Bool) (f : Delivery → Delivery) (rows : List Delivery)
    → ((d : Delivery) → p d ≡ true → is_active d.state ≡ true)
    → ((d : Delivery) → (f d).integration ≡ d.integration)
    → ((d : Delivery) → (f d).event_id ≡ d.event_id)
    → InOrder rows
    → InOrder (update p f rows)
InOrder-active p f rows runs same_integration same_event h =
    InOrder-part p f rows rows
      (record {
        integration = same_integration;
        event_id = same_event;
        undelivered = λ d k. active-undelivered d.state (runs d k);
      })
      (λ d k started unstarted.
        absurd (let x = active-started d.state (d.attempts == 0) (runs d k) in cc))
      h

-- An answer is about its event.
pub record SameEvent (d d' : Delivery) : Type 0 where
  pub integration : d'.integration ≡ d.integration
  pub event_id : d'.event_id ≡ d.event_id

pub after_answer-SameEvent :
    (now attempts : ℕ) (answer : Answer) (d : Delivery)
    → SameEvent d (after_answer now attempts answer d)
unfolding after_answer
after_answer-SameEvent now attempts done d = record { integration = refl; event_id = refl }
after_answer-SameEvent now attempts (failed may_retry ambiguous code) d =
    elim (Bool-cases (ambiguous || not may_retry || leb max_attempts attempts)) [
      | inl over ↦ rw (over, after_answer) (record { integration = refl; event_id = refl })
      | inr again ↦ rw (again, after_answer) (record { integration = refl; event_id = refl })
    ]

pub running-active : (id : ℕ) (d : Delivery) → is_running id d ≡ true → is_active d.state ≡ true
running-active id d k = and_right (d.id == id) (is_active d.state) k

InOrder-settle :
    (adapters : Adapters) (now : ℕ) (d : Delivery) (rows : List Delivery)
    → InOrder rows
    → InOrder (settle adapters now d rows)
unfolding settle
InOrder-settle adapters now d rows h =
    let ends =
      λ (f : Delivery → Delivery). InOrder-active (is_running d.id) f rows (running-active d.id) in
    elim (Option-cases (adapters d)) [
      | inl unknown ↦ rw (unknown, settle) (ends _ (λ x. refl) (λ x. refl) h)
      | inr (answer, called) ↦ elim (Bool-cases (not (d.schema_version == 1))) [
        | inl foreign ↦ rw (called, foreign, settle) (ends _ (λ x. refl) (λ x. refl) h)
        | inr supported ↦
            let same = after_answer-SameEvent now d.attempts answer in
            rw (called, supported, settle)
              (ends (after_answer now d.attempts answer) (λ x. (same x).integration)
                (λ x. (same x).event_id) h)
      ]
    ]

InOrder-recover : (now : ℕ) (rows : List Delivery) → InOrder rows → InOrder (recover now rows)
unfolding recover
InOrder-recover now rows h =
    InOrder-active (is_stuck now) released rows (λ d k. and_left (is_active d.state) _ k)
      (λ x. refl) (λ x. refl) h

-- A later event stands before none that was there.
not_before :
    (i j : String) (e f : ℕ) (over : Bool) → f ≤ e → (i == j && ltb e f && not over) ≡ false
not_before i j e f over h = ground arith

blocked-append :
    (i : String) (f : ℕ) (rows : List Delivery) (q : Delivery)
    → f ≤ q.event_id
    → is_blocked i f rows ≡ false
    → is_blocked i f (rows ++ q ∷ []) ≡ false
blocked-append i f [] q le h =
    rw (not_before q.integration i q.event_id f (is_delivered q.state) le) refl
blocked-append i f (d ∷ ds) q le h =
    or_later (stands_before i f d) (is_blocked i f ds) _ h (blocked-append i f ds q le)

InOrder-queued :
    (q : Delivery) (rows ds : List Delivery)
    → All (λ (d : Delivery). d.event_id ≤ q.event_id) ds
    → All (Free rows) ds
    → All (Free (rows ++ q ∷ [])) ds
InOrder-queued q rows [] le h = tt
InOrder-queued q rows (d ∷ ds) le h = (
  λ k. blocked-append d.integration d.event_id rows q le.0 (h.0 k),
  InOrder-queued q rows ds le.1 h.1,
)

InOrder-enqueue :
    (fresh event_id : ℕ) (names : List String) (rows : List Delivery)
    → All (λ (d : Delivery). d.event_id ≤ event_id) rows
    → InOrder rows
    → InOrder (enqueue fresh event_id names rows)
unfolding enqueue
InOrder-enqueue fresh event_id [] rows le h = h
InOrder-enqueue fresh event_id (name ∷ names) rows le h =
    let q = queued fresh event_id name in
    InOrder-enqueue (suc fresh) event_id names (rows ++ q ∷ [])
      (All-append _ rows (q ∷ []) le (omega arith, tt))
      (All-append _ rows (q ∷ []) (InOrder-queued q rows rows le h) (λ k. absurd (cc), tt))

earlier-le :
    (n : ℕ) (rows : List Delivery)
    → All (λ (d : Delivery). d.event_id < n) rows
    → All (λ (d : Delivery). d.event_id ≤ n) rows
earlier-le n [] h = tt
earlier-le n (d ∷ ds) h = (let k = h.0 in omega arith, earlier-le n ds h.1)

Step-InOrder : {rows rows' : List Delivery} → Step rows rows' → InOrder rows → InOrder rows'
Step-InOrder (claims rows now id) h = InOrder-claim now id rows h
Step-InOrder (answers rows adapters now d) h = InOrder-settle adapters now d rows h
Step-InOrder (recovers rows now) h = InOrder-recover now rows h
Step-InOrder (happens rows fresh event_id names new) h =
    InOrder-enqueue fresh event_id names rows (earlier-le event_id rows new) h

-- Whatever events are queued (each later than those before it), claimed, answered and released by
-- recovery in any order, an event was attempted only when every earlier event of its integration
-- was delivered, if that held at the start.
pub Reach-InOrder :
    (start : List Delivery) {rows : List Delivery} → InOrder start → Reach start rows → InOrder rows
Reach-InOrder start h here = h
Reach-InOrder start h (onward r s) = Step-InOrder s (Reach-InOrder start h r)
