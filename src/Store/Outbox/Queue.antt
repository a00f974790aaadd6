-- ===== src/Store/Outbox/Queue.antt =====
-- src/infrastructure/store.ts: the rows that `outbound` adds to the queue of messages.
use zolo.Prelude.{
  ℕ, ◌≤◌, String, Bool, true, false, ◌&&◌, not, Option, List, [], ◌∷◌, ◌++◌, ◌≡◌, sym, subst, arith,
  ok, ok_injective, Bool-cases, Result-cases, inl, inr, string_eq, ◌==◌, eq_sound, any, count, All,
  All-append, count-append, count-any, count-and,
}
use zolo.Domain.{Notice}
use zolo.Policies.Phone.{canonical_phone}
use zolo.Store.Tables.{Config, Db, Outbound, FormatState}
use zolo.Store.Outbox.{
  is_operations_alert, is_waiting, insert_outbound, Origin, outbound_row, outbound,
}

abbrev has_key : String → Outbound → Bool
has_key key o = o.dedupe_key == key

abbrev has_turn : String → Outbound → Bool
has_turn phone o = (o.phone == phone && is_waiting o.state) && o.has_job

-- A key is used once; of a recipient's waiting messages one at most is being sent; and the
-- operational alerts go to the administrator.
pub record InOrder (config : Config) (rows : List Outbound) : Type 0 where
  pub once : (key : String) → count (has_key key) rows ≤ 1
  pub one_turn : (phone : String) → count (has_turn phone) rows ≤ 1
  pub alerts : All (λ o. is_operations_alert o.text ≡ true → o.phone ≡ config.admin_phone) rows

queued : Outbound → List Outbound → Outbound
queued row rows = record row {
  has_job = not (any (λ o. o.phone == row.phone && is_waiting o.state) rows);
}

module _ (config : Config) (rows : List Outbound) (row : Outbound) (fine : InOrder config rows)
    (new : any (λ o. o.dedupe_key == row.dedupe_key) rows ≡ false)
    (alert : is_operations_alert row.text ≡ true → row.phone ≡ config.admin_phone) where
  once-queued : (key : String) → count (has_key key) (rows ++ queued row rows ∷ []) ≤ 1
  unfolding queued
  once-queued key = elim (Bool-cases (row.dedupe_key == key)) [
    | inl same ↦
        let none_before =
          subst (λ k. count (has_key k) rows ≡ 0) (eq_sound row.dedupe_key key same)
            (count-any (has_key row.dedupe_key) rows new) in
        ground (arith, count-append (has_key key) rows (queued row rows ∷ []), none_before)
    | inr differ ↦
        ground
          (arith, count-append (has_key key) rows (queued row rows ∷ []), fine.once key, differ)
  ]

  one_turn-queued : (phone : String) → count (has_turn phone) (rows ++ queued row rows ∷ []) ≤ 1
  unfolding queued
  one_turn-queued phone =
      let p = λ (o : Outbound). o.phone == phone && is_waiting o.state in
      let before = count-and p (λ o. o.has_job) rows in
      elim (Bool-cases (any p rows)) [
        | inl busy ↦ elim (Bool-cases (row.phone == phone)) [
          | inl same ↦
              let busy' =
                subst (λ x. any (λ (o : Outbound). o.phone == x && is_waiting o.state) rows ≡ true)
                  (sym (eq_sound row.phone phone same)) busy in
              ground (
                arith,
                count-append (has_turn phone) rows (queued row rows ∷ []),
                fine.one_turn phone,
                busy',
              )
          | inr differ ↦ ground (
            arith,
            count-append (has_turn phone) rows (queued row rows ∷ []),
            fine.one_turn phone,
            differ,
          )
        ]
        | inr idle ↦ ground (
          arith,
          count-append (has_turn phone) rows (queued row rows ∷ []),
          before,
          count-any p rows idle,
        )
      ]

  InOrder-queued : InOrder config (rows ++ queued row rows ∷ [])
  unfolding queued
  InOrder-queued = record {
    once = once-queued;
    one_turn = one_turn-queued;
    alerts = All-append _ rows (queued row rows ∷ []) fine.alerts (alert, tt);
  }

to_admin :
    (config : Config) (phone : String) (alert : Bool)
    → (alert && not (phone == config.admin_phone)) ≡ false
    → alert ≡ true
    → phone ≡ config.admin_phone
to_admin config phone true h e = eq_sound phone config.admin_phone (ground arith)
to_admin config phone false h e = absurd (cc)

inserted :
    (config : Config) (row : Outbound) (db : Db)
    → InOrder config db.outbox
    → (is_operations_alert row.text ≡ true → row.phone ≡ config.admin_phone)
    → InOrder config (insert_outbound row db).1.outbox
unfolding insert_outbound queued
inserted config row db fine alert =
    elim (Bool-cases (any (λ o. o.dedupe_key == row.dedupe_key) db.outbox)) [
      | inl known ↦ rw known fine
      | inr new ↦ rw new (InOrder-queued config db.outbox row fine new alert)
    ]

-- outbound keeps the queue in order: a key is used once at most, of the waiting messages of a
-- recipient one at most has its job sent, and operational alerts go to the administrator alone.
pub outbound-InOrder :
    (format : FormatState) (config : Config) (ctx : Origin) (notice : Notice) (key : String)
    (request_id id : Option ℕ) (db db' : Db)
    → InOrder config db.outbox
    → outbound format config ctx notice key request_id db ≡ ok (id, db')
    → InOrder config db'.outbox
unfolding outbound outbound_row
outbound-InOrder format config ctx notice key request_id id db db' fine h =
    elim (Result-cases (canonical_phone notice.phone)) [
      | inr (e, bad) ↦ absurd (let k = rw (bad, outbound) at h in cc)
      | inl (phone, named) ↦
          elim (Bool-cases (is_operations_alert notice.text && not (phone == config.admin_phone))) [
            | inl foreign ↦
                subst (λ x. InOrder config x.1.outbox)
                  (ok_injective (rw (named, foreign, outbound) at h)) fine
            | inr proper ↦
                subst (λ x. InOrder config x.1.outbox)
                  (ok_injective (rw (named, proper, outbound) at h))
                  (inserted config (outbound_row format db ctx notice key request_id phone) db fine
                    (λ alert. to_admin config phone (is_operations_alert notice.text) proper alert))
          ]
    ]
