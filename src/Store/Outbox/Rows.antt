-- ===== src/Store/Outbox/Rows.antt =====
-- src/infrastructure/store.ts: a message that is queued leaves the requests and the runs alone.
use zolo.Prelude.{
  ◌≤◌, ◌<◌, ◌⊎◌, arith, [], ◌∷◌, ◌++◌, String, not, ◌&&◌, Option, ◌≡◌, refl, ◌∙◌, subst, ok,
  ok_injective, Bool-cases, Result-cases, inl, inr, string_eq, ◌==◌, any, ℕ,
}
use zolo.Domain.{Notice}
use zolo.Policies.Phone.{canonical_phone}
use zolo.Store.Tables.{Config, Db, Outbound, FormatState}
use zolo.Store.Outbox.{is_operations_alert, insert_outbound, Origin, outbound_row, outbound}

pub record SameRows (db db' : Db) : Type 0 where
  pub requests : db'.requests ≡ db.requests
  pub runs : db'.runs ≡ db.runs

pub SameRows-refl : (db : Db) → SameRows db db
SameRows-refl db = record { requests = refl; runs = refl }

pub SameRows-trans : (a b c : Db) → SameRows a b → SameRows b c → SameRows a c
SameRows-trans a b c h k = record { requests = k.requests ∙ h.requests; runs = k.runs ∙ h.runs }

insert_outbound-SameRows : (row : Outbound) (db : Db) → SameRows db (insert_outbound row db).1
unfolding insert_outbound
insert_outbound-SameRows row db =
    elim (Bool-cases (any (λ o. o.dedupe_key == row.dedupe_key) db.outbox)) [
      | inl known ↦ record {
        requests = rw (known, insert_outbound);
        runs = rw (known, insert_outbound);
      }
      | inr new ↦ record { requests = rw (new, insert_outbound); runs = rw (new, insert_outbound) }
    ]

pub outbound-SameRows :
    (format : FormatState) (config : Config) (ctx : Origin) (n : Notice) (key : String)
    (request_id : Option ℕ) (db : Db) (x : Option ℕ × Db)
    → outbound format config ctx n key request_id db ≡ ok x
    → SameRows db x.1
unfolding outbound
outbound-SameRows format config ctx n key request_id db x h =
    elim (Result-cases (canonical_phone n.phone)) [
      | inr (e, bad) ↦ absurd (let k = rw (bad, outbound) at h in cc)
      | inl (phone, named) ↦
          elim (Bool-cases (is_operations_alert n.text && not (phone == config.admin_phone))) [
            | inl foreign ↦
                subst (λ y. SameRows db y.1) (ok_injective (rw (named, foreign, outbound) at h))
                  (SameRows-refl db)
            | inr proper ↦
                subst (λ y. SameRows db y.1) (ok_injective (rw (named, proper, outbound) at h))
                  (insert_outbound-SameRows (outbound_row format db ctx n key request_id phone) db)
          ]
    ]

-- What `outbound` does to the queue: nothing, or one row more, with an identifier of its own.
pub record Queued (db db' : Db) : Type 0 where
  pub fresh : db.fresh ≤ db'.fresh
  pub rows :
      (db'.outbox ≡ db.outbox)
      ⊎ ((o : Outbound) × (o.id ≡ db.fresh)
          × (db.fresh < db'.fresh)
          × (db'.outbox ≡ db.outbox ++ o ∷ []))

insert_outbound-Queued :
    (row : Outbound) (db : Db) → row.id ≡ db.fresh → Queued db (insert_outbound row db).1
unfolding insert_outbound
insert_outbound-Queued row db own =
    elim (Bool-cases (any (λ o. o.dedupe_key == row.dedupe_key) db.outbox)) [
      | inl known ↦ rw (known, insert_outbound) (record { fresh = omega arith; rows = inl refl })
      | inr new ↦
          rw (new, insert_outbound)
            (record { fresh = omega arith; rows = inr (_, own, omega arith, refl) })
    ]

pub outbound-Queued :
    (format : FormatState) (config : Config) (ctx : Origin) (n : Notice) (key : String)
    (request_id : Option ℕ) (db : Db) (x : Option ℕ × Db)
    → outbound format config ctx n key request_id db ≡ ok x
    → Queued db x.1
unfolding outbound outbound_row
outbound-Queued format config ctx n key request_id db x h =
    elim (Result-cases (canonical_phone n.phone)) [
      | inr (e, bad) ↦ absurd (let k = rw (bad, outbound) at h in cc)
      | inl (phone, named) ↦
          elim (Bool-cases (is_operations_alert n.text && not (phone == config.admin_phone))) [
            | inl foreign ↦
                subst (λ y. Queued db y.1) (ok_injective (rw (named, foreign, outbound) at h))
                  (record { fresh = omega arith; rows = inl refl })
            | inr proper ↦
                subst (λ y. Queued db y.1) (ok_injective (rw (named, proper, outbound) at h))
                  (insert_outbound-Queued (outbound_row format db ctx n key request_id phone) db
                    refl)
          ]
    ]
