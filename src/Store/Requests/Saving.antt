-- ===== src/Store/Requests/Saving.antt =====
-- src/infrastructure/store.ts: what `save` does to the row of a request, and optimistic locking.
use zolo.Prelude.{
  ℕ, suc, false, none, some, List, ◌≡◌, refl, sym, arith, ok, err, nat_eq, ◌==◌, find, update,
  subst, Option-cases, Result-cases, inl, inr, find-update_miss,
}
use zolo.Domain.{Party, Request}
use zolo.Store.Tables.{Db}
use zolo.Store.Requests.{is_version_of, version_conflict, save_parties, saved_row, save}

abbrev pub written : Request → List Party → Db → Db
written r parties db = record db {
  requests = update (is_version_of r) (saved_row r parties) db.requests;
}

-- What a success of `save` means.
pub record Saved (r : Request) (db : Db) (r' : Request) (db' : Db) : Type 0 where
  pub old : Request
  pub parties : List Party
  pub found : find (is_version_of r) db.requests ≡ some old
  pub stored : save_parties r r.parties old.parties ≡ ok parties
  pub newer : r' ≡ record r { version = suc r.version }
  pub rows : db' ≡ written r parties db

pub save-Saved : (r r' : Request) (db db' : Db) → save r db ≡ ok (r', db') → Saved r db r' db'
unfolding save
save-Saved r r' db db' h = elim (Option-cases (find (is_version_of r) db.requests)) [
  | inl lost ↦ absurd (let k = rw (lost, save) at h in cc)
  | inr (old, found) ↦ elim (Result-cases (save_parties r r.parties old.parties)) [
    | inr (e, bad) ↦ absurd (let k = rw (found, bad, save) at h in cc)
    | inl (parties, stored) ↦
        let k = rw (found, stored, save) at h in
        record {
          old = old;
          parties = parties;
          found = found;
          stored = stored;
          newer = cc;
          rows = cc;
        }
  ]
]

no_version : (n m : ℕ) → n ≡ m → (suc m == n) ≡ false
no_version n m e = ground arith

stale_row :
    (r s : Request) (parties : List Party) (x : Request)
    → s.version ≡ r.version
    → is_version_of s (saved_row r parties x) ≡ false
stale_row r s parties x same = ground (arith, no_version s.version r.version same)

same_key : (r s : Request) → s.id ≡ r.id → s.version ≡ r.version → is_version_of s ≡ is_version_of r
same_key r s i v = rw (i, v)

lost :
    (s : Request) (db : Db)
    → find (is_version_of s) db.requests ≡ none
    → save s db ≡ err version_conflict
unfolding save
lost s db e = rw (e, save)

-- Once a request was saved, no other copy with the version that was read can be saved: it fails
-- with a version conflict, so no write of a competing turn is lost.
pub save-stale :
    (r r' : Request) (db db' : Db) (s : Request)
    → save r db ≡ ok (r', db')
    → s.id ≡ r.id
    → s.version ≡ r.version
    → save s db' ≡ err version_conflict
unfolding save
save-stale r r' db db' s h i v =
    let saved = save-Saved r r' db db' h in
    let gone =
      find-update_miss (is_version_of r) (saved_row r saved.parties) db.requests
        (λ x _. stale_row r r saved.parties x refl) in
    subst (λ x. save s x ≡ err version_conflict) (sym saved.rows)
      (lost s (written r saved.parties db) (rw (same_key r s i v) gone))

-- What request reads behind a save: the columns that were saved, and those that it leaves alone.
pub record ReadBack (r old s : Request) : Type 0 where
  pub id : s.id ≡ r.id
  pub version : s.version ≡ suc r.version
  pub status : s.status ≡ r.status
  pub origin : s.origin ≡ r.origin
  pub verification_contacted : s.verification_contacted ≡ r.verification_contacted
  pub items : s.items ≡ r.items
  pub run_date : s.run_date ≡ r.run_date
  pub proposed_run_date : s.proposed_run_date ≡ r.proposed_run_date
  pub earliest_run_date : s.earliest_run_date ≡ r.earliest_run_date
  pub preferred_time : s.preferred_time ≡ r.preferred_time
  pub represents_both_parties : s.represents_both_parties ≡ r.represents_both_parties
  pub closed_at : s.closed_at ≡ r.closed_at
  pub human_reason : s.human_reason ≡ r.human_reason
  pub number : s.number ≡ old.number
  pub photo_ids : s.photo_ids ≡ old.photo_ids
  pub locations : s.locations ≡ old.locations
  pub created_at : s.created_at ≡ old.created_at
