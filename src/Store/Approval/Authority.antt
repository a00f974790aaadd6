-- ===== src/Store/Approval/Authority.antt =====
-- src/infrastructure/store.ts: who decides on more capacity, and what the decision changes.
use zolo.Prelude.{
  ℕ, ◌≤◌, String, Bool, true, Option, some, List, [], ◌∷◌, ◌≡◌, ap, subst, arith, ok, ok_injective,
  some_injective, Bool-cases, Result-cases, Option-cases, inl, inr, nat_eq, string_eq, ◌==◌,
  eq_sound, find, update, ltb,
}
use zolo.Policies.Phone.{canonical_phone}
use zolo.Store.Tables.{Config, Db, CapacityApproval, TransportRun}
use zolo.Store.Transport.{run_on, max_capacity}
use zolo.Store.Approval.{Resolution, grant, resolve_capacity_approval}

-- A decision on more capacity, and even the answer that none is pending, is given only to a phone
-- whose canonical form is the administrator's.
pub resolve_capacity_approval-admin :
    (config : Config) (date : Option ℕ) (accept : Bool) (phone : String) (db db' : Db)
    (x : Resolution)
    → resolve_capacity_approval config date accept phone db ≡ ok (x, db')
    → canonical_phone phone ≡ ok config.admin_phone
unfolding resolve_capacity_approval
resolve_capacity_approval-admin config date accept phone db db' x h =
    elim (Result-cases (canonical_phone phone)) [
      | inr (e, bad) ↦ absurd (let k = rw (bad, resolve_capacity_approval) at h in cc)
      | inl (p, named) ↦ elim (Bool-cases (p == config.admin_phone)) [
        | inr stranger ↦ absurd (let k = rw (named, stranger, resolve_capacity_approval) at h in cc)
        | inl admin ↦ rw named (ap ok (eq_sound p config.admin_phone admin))
      ]
    ]

-- The run of a date with its capacity, as the decision leaves it.
pub record Raised (row : CapacityApproval) (db db' : Db) : Type 0 where
  pub run : TransportRun
  pub stored : run_on row.run_date db ≡ some run
  pub in_use : run.is_open ≡ true
  pub bound : row.requested_capacity ≤ 100
  pub raised : run_on row.run_date db' ≡ some (record run { capacity = row.requested_capacity })

find-raised :
    (date capacity : ℕ) (runs : List TransportRun) (t : TransportRun)
    → find (λ x. x.date == date) runs ≡ some t
    → find
        (λ x. x.date == date)
        (update (λ x. x.date == date) (λ x. record x { capacity = capacity }) runs)
      ≡ some (record t { capacity = capacity })
find-raised date capacity [] t h = absurd (cc)
find-raised date capacity (x ∷ runs) t h = elim (Bool-cases (x.date == date)) [
  | inl here ↦
      rw (here, here)
        (ap (λ (o : TransportRun). some (record o { capacity = capacity }))
          (some_injective (rw here at h)))
  | inr away ↦ rw (away, away) (find-raised date capacity runs t (rw away at h))
]

-- A grant succeeds only for a date whose run takes transports and for at most 100 places, and sets
-- the capacity of that run to what was requested.
pub grant-Raised :
    (row : CapacityApproval) (db db' : Db) (u : Unit {0})
    → grant row db ≡ ok (u, db')
    → Raised row db db'
unfolding grant
grant-Raised row db db' u h = elim (Option-cases (run_on row.run_date db)) [
  | inl lost ↦ absurd (let k = rw (lost, grant) at h in cc)
  | inr (t, e) ↦ elim (Bool-cases t.is_open) [
    | inr shut ↦ absurd (let k = rw (e, shut, grant) at h in cc)
    | inl in_use ↦ elim (Bool-cases (ltb max_capacity row.requested_capacity)) [
      | inl over ↦ absurd (let k = rw (e, in_use, over, grant) at h in cc)
      | inr within ↦
          let k = ok_injective (rw (e, in_use, within, grant) at h) in
          record {
            run = t;
            stored = e;
            in_use = in_use;
            bound = ground arith;
            raised =
                subst
                  (λ x.
                    run_on row.run_date x.1 ≡ some (record t { capacity = row.requested_capacity }))
                  k (find-raised row.run_date row.requested_capacity db.runs t e);
          }
    ]
  ]
]
