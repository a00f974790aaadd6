-- ===== src/Store/Requests.antt =====
-- src/infrastructure/store.ts: `request`, `save` and `create`.
pub mod Saving
pub mod Parties
pub mod Reading
use zolo.Prelude.{
  ℕ, suc, String, Bool, false, ◌&&◌, none, some, List, [], ◌∷◌, ◌++◌, map, nat_eq, option_eq, ◌==◌,
  if◌then◌else◌, is_some, or_else, find, filter, update, Failure, error_status, Result, ok, err,
}
use zolo.Domain.{
  is_donor, is_receiver, same_role, Origin, collecting, Item, Party, Request, Verification,
}
use zolo.Policies.Phone.{canonical_phone}
use zolo.Policies.Calendar.{Now}
use zolo.Store.Tables.{Db, VerificationRow, Tx, lift}

-- `schedule_approved_date::date = COALESCE(proposed_run_date, run_date)`, and no null.
abbrev pub approves_current : Request → Party → Bool
approves_current r p =
    is_some p.schedule_approved_date
    && p.schedule_approved_date == or_else r.proposed_run_date r.run_date

abbrev verification_of : VerificationRow → Verification
verification_of v = record { role = v.role; state = v.state }

abbrev pub fresh_party : Request → Party → Party
fresh_party r p = record p { schedule_approved = approves_current r p }

-- The row of a request as the program reads it: the donor first, and the approval of the date
-- computed anew.
unfoldable pub read_row : Db → Request → Request
read_row db r =
    let parties = map (fresh_party r) r.parties in
    record r {
      parties = filter (λ p. is_donor p.role) parties ++ filter (λ p. is_receiver p.role) parties;
      verification_states =
          map verification_of (filter (λ v. v.request_id == r.id) db.verifications);
    }

abbrev pub request_not_found : Failure
request_not_found = error_status "request_not_found" 404

unfoldable pub request : ℕ → Tx Request
unfolding read_row
request id db = elim (find (λ r. r.id == id) db.requests) [
  | none ↦ err request_not_found
  | some r ↦ ok (read_row db r, db)
]

-- `contact(c, phone)`: the row of a contact is named by its canonical phone.
abbrev pub contact : String → Tx String
contact phone = lift (canonical_phone phone)

-- The columns of a party. The approver is the party's own contact.
abbrev pub party_row : Request → String → Party → Party
party_row r phone p = record p {
  phone = phone;
  approved_by = elim p.approved_by [ none ↦ none | some _ ↦ some phone ];
  schedule_approved = approves_current r p;
}

-- `INSERT … ON CONFLICT(request_id,role) DO UPDATE`: the update leaves `floor_note_shown` alone.
unfoldable pub upsert_party : Party → List Party → List Party
upsert_party p [] = p ∷ []
upsert_party p (q ∷ stored) =
    let later = upsert_party p stored in
    if same_role p.role q.role
    then record p { floor_note_shown = q.floor_note_shown } ∷ stored
    else q ∷ later

-- The loop of `save` over the parties.
unfoldable pub save_parties : Request → List Party → List Party → Result (List Party)
unfolding upsert_party
save_parties r [] stored = ok stored
save_parties r (p ∷ parties) stored = elim (canonical_phone p.phone) [
  | err e ↦ err e
  | ok phone ↦ save_parties r parties (upsert_party (party_row r phone p) stored)
]

abbrev pub version_conflict : Failure
version_conflict = error_status "version_conflict" 409

-- The columns that `save` writes; photographs, places and the number are other statements'.
abbrev pub saved_row : Request → List Party → Request → Request
saved_row r parties old = record r {
  version = suc r.version;
  number = old.number;
  photo_ids = old.photo_ids;
  locations = old.locations;
  created_at = old.created_at;
  parties = parties;
}

-- `WHERE id=$1 AND version=$2`
abbrev pub is_version_of : Request → Request → Bool
is_version_of r x = x.id == r.id && x.version == r.version

-- `save(c, r)`: the written row counts as one version more, and so does `r` itself.
unfoldable pub save : Request → Tx Request
unfolding save_parties
save r db = elim (find (is_version_of r) db.requests) [
  | none ↦ err version_conflict
  | some old ↦ elim (save_parties r r.parties old.parties) [
    | err e ↦ err e
    | ok parties ↦ ok (
      record r { version = suc r.version },
      record db { requests = update (is_version_of r) (saved_row r parties) db.requests },
    )
  ]
]

abbrev new_request : ℕ → ℕ → List Item → List Party → Origin → ℕ → Request
new_request id number items parties origin created_at = record {
  id = id;
  number = number;
  version = 0;
  status = collecting;
  origin = origin;
  verification_contacted = false;
  items = items;
  parties = parties;
  photo_ids = [];
  locations = [];
  verification_states = [];
  run_date = none;
  proposed_run_date = none;
  earliest_run_date = none;
  preferred_time = none;
  represents_both_parties = false;
  closed_at = none;
  human_reason = none;
  created_at = created_at;
}

-- `create(c, items, parties, origin)`: the next number of the counter, the bare row, and `save`.
unfoldable pub create : Now → List Item → List Party → Origin → Tx Request
unfolding save
create now items parties origin db =
    let number = suc db.counter in
    let r = new_request db.fresh number items parties origin now.wall in
    let bare = record r { items = []; parties = [] } in
    save r
      (record db { fresh = suc db.fresh; counter = number; requests = db.requests ++ bare ∷ [] })
