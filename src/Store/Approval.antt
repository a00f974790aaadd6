-- ===== src/Store/Approval.antt =====
-- src/infrastructure/store.ts: `resolveCapacityApproval`, the administrator's answer.
pub mod Authority
use zolo.Prelude.{
  ℕ, String, Bool, true, false, ◌&&◌, not, Option, none, some, List, [], ◌∷◌, nat_eq, string_eq,
  ◌==◌, ltb, if◌then◌else◌, filter, update, error_status, ok, err,
}
use zolo.Policies.Phone.{canonical_phone}
use zolo.Store.Tables.{
  Config, Db, CapacityApproval, ApprovalStatus, awaiting, approved, denied, Tx, pure, modify, ◌>>◌,
  event,
}
use zolo.Store.Transport.{run_on, max_capacity}

pub data Resolution : Type 0 where
  was_approved was_denied nothing_pending ambiguous : Resolution

abbrev is_awaiting : ApprovalStatus → Bool
is_awaiting awaiting = true
is_awaiting _ = false

-- `status='pending' AND ($1 IS NULL OR run_date=$1)`
abbrev pub pending_for : Option ℕ → CapacityApproval → Bool
pending_for none a = is_awaiting a.status
pending_for (some date) a = is_awaiting a.status && a.run_date == date

abbrev set_status : CapacityApproval → ApprovalStatus → Db → Db
set_status row status db = record db {
  approvals = update (λ a. a.id == row.id) (λ a. record a { status = status }) db.approvals;
}

abbrev set_capacity : CapacityApproval → Db → Db
set_capacity row db = record db {
  runs =
      update (λ t. t.date == row.run_date) (λ t. record t { capacity = row.requested_capacity })
        db.runs;
}

-- The checks under the lock of the run, and the new capacity.
unfoldable pub grant : CapacityApproval → Tx (Unit {0})
grant row db = elim (run_on row.run_date db) [
  | none ↦ err (error_status "transport_run_closed" 409)
  | some run ↦
      if not run.is_open
      then err (error_status "transport_run_closed" 409)
      else if ltb max_capacity row.requested_capacity
      then err (error_status "transport_capacity_limit" 409)
      else ok (tt, set_capacity row db)
]

abbrev decide_one : Bool → CapacityApproval → Tx Resolution
decide_one true row = do
  grant row
  modify (set_status row approved)
  event "admin" "capacity_approval_granted" none
  pure was_approved
decide_one false row = do
  modify (set_status row denied)
  event "admin" "capacity_approval_denied" none
  pure was_denied

abbrev decide_rows : Bool → List CapacityApproval → Tx Resolution
decide_rows accept [] = pure nothing_pending
decide_rows accept (row ∷ []) = decide_one accept row
decide_rows accept (_ ∷ _ ∷ _) = pure ambiguous

unfoldable pub resolve_capacity_approval : Config → Option ℕ → Bool → String → Tx Resolution
unfolding grant
resolve_capacity_approval config date accept admin_phone db = elim (canonical_phone admin_phone) [
  | err e ↦ err e
  | ok phone ↦
      if not (phone == config.admin_phone)
      then err (error_status "admin_required" 403)
      else decide_rows accept (filter (pending_for date) db.approvals) db
]
