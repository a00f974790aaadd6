-- ===== src/Store/Requests/Parties.antt =====
-- src/infrastructure/store.ts: the rows of the parties that `save` writes.
use zolo.Prelude.{
  ◌≤◌, String, Bool, true, false, Option, none, some, List, [], ◌∷◌, ◌≡◌, refl, sym, ap, ◌∙◌, arith,
  ok, find, count, Bool-cases, Result-cases, ok_injective, some_injective, subst, inl, inr,
}
use zolo.Domain.{Role, donor, receiver, same_role, same_role_sound, Party, Request}
use zolo.Policies.Phone.{canonical_phone}
use zolo.Store.Requests.{party_row, upsert_party, save_parties}

-- The flag of the stored party of a role, where there is one.
abbrev pub floor_flag : Role → List Party → Option Bool
floor_flag role ps = elim (find (λ p. same_role role p.role) ps) [
  | none ↦ none
  | some p ↦ some p.floor_note_shown
]

same_role-alike : (a b c : Role) → same_role a b ≡ true → same_role c a ≡ same_role c b
same_role-alike donor donor c h = refl
same_role-alike donor receiver c h = absurd (cc)
same_role-alike receiver donor c h = absurd (cc)
same_role-alike receiver receiver c h = refl

upsert_party-floor_flag :
    (p : Party) (role : Role) (ps : List Party) (b : Bool)
    → floor_flag role ps ≡ some b
    → floor_flag role (upsert_party p ps) ≡ some b
unfolding upsert_party
upsert_party-floor_flag p role [] b h = absurd (cc)
upsert_party-floor_flag p role (q ∷ ps) b h =
    ground (arith, same_role-alike p.role q.role role, upsert_party-floor_flag p role ps b)

-- Whatever a saved request says, the stored flag that the note about the floor was shown stays as
-- it was for a role that has a stored party.
pub save_parties-floor_flag :
    (r : Request) (ps stored parties : List Party) (role : Role) (b : Bool)
    → floor_flag role stored ≡ some b
    → save_parties r ps stored ≡ ok parties
    → floor_flag role parties ≡ some b
unfolding save_parties
save_parties-floor_flag r [] stored parties role b h k =
    subst (λ x. floor_flag role x ≡ some b) (ok_injective k) h
save_parties-floor_flag r (p ∷ ps) stored parties role b h k =
    elim (Result-cases (canonical_phone p.phone)) [
      | inr (e, bad) ↦ absurd (let l = rw (bad, save_parties) at k in cc)
      | inl (phone, fine) ↦
          save_parties-floor_flag r ps (upsert_party (party_row r phone p) stored) parties role b
            (upsert_party-floor_flag (party_row r phone p) role stored b h)
            (rw (fine, save_parties) at k)
    ]

abbrev pub of_role : Role → List Party → Option Party
of_role role ps = find (λ p. same_role role p.role) ps

-- What the row of a party has of the party that was saved. The approver is kept as a contact.
pub record Written (p q : Party) : Type 0 where
  pub role : q.role ≡ p.role
  pub phone : canonical_phone p.phone ≡ ok q.phone
  pub name : q.name ≡ p.name
  pub settlement : q.settlement ≡ p.settlement
  pub address : q.address ≡ p.address
  pub floor : q.floor ≡ p.floor
  pub approved_at : q.approved_at ≡ p.approved_at
  pub schedule_approved_date : q.schedule_approved_date ≡ p.schedule_approved_date
  pub schedule_approved_at : q.schedule_approved_at ≡ p.schedule_approved_at

-- The row of a role is the one of the party.
pub record Stored (role : Role) (p : Party) (ps : List Party) : Type 0 where
  pub row : Party
  pub found : of_role role ps ≡ some row
  pub written : Written p row

party_row_lem :
    (r : Request) (p : Party) (phone : String) (shown : Bool)
    → canonical_phone p.phone ≡ ok phone
    → Written p (record (party_row r phone p) { floor_note_shown = shown })
party_row_lem r p phone shown h = record {
  role = refl;
  phone = h;
  name = refl;
  settlement = refl;
  address = refl;
  floor = refl;
  approved_at = refl;
  schedule_approved_date = refl;
  schedule_approved_at = refl;
}

-- The upsert writes the row of its role and leaves the other one.
upsert_party-own :
    (p : Party) (role : Role) (ps : List Party)
    → same_role role p.role ≡ true
    → (shown : Bool) × (of_role role (upsert_party p ps)
        ≡ some (record p { floor_note_shown = shown }))
unfolding upsert_party
upsert_party-own p role [] own = (p.floor_note_shown, rw own refl)
upsert_party-own p role (q ∷ ps) own = elim (Bool-cases (same_role p.role q.role)) [
  | inl alike ↦ (q.floor_note_shown, rw (alike, own) refl)
  | inr unlike ↦
      let (shown, e) = upsert_party-own p role ps own in
      let other : same_role role q.role ≡ false =
        subst (λ x. same_role x q.role ≡ false) (sym (same_role_sound role p.role own)) unlike in
      (shown, rw (unlike, other) e)
]

upsert_party-other :
    (p : Party) (role : Role) (ps : List Party)
    → same_role role p.role ≡ false
    → of_role role (upsert_party p ps) ≡ of_role role ps
unfolding upsert_party
upsert_party-other p role [] other = rw other refl
upsert_party-other p role (q ∷ ps) other =
    ground (arith, same_role-alike p.role q.role role, upsert_party-other p role ps other)

save_parties-other :
    (r : Request) (ps stored parties : List Party) (role : Role)
    → count (λ p. same_role role p.role) ps ≤ 0
    → save_parties r ps stored ≡ ok parties
    → of_role role parties ≡ of_role role stored
unfolding save_parties
save_parties-other r [] stored parties role none_here k = sym (ap (of_role role) (ok_injective k))
save_parties-other r (p ∷ ps) stored parties role none_here k =
    elim (Result-cases (canonical_phone p.phone)) [
      | inr (e, bad) ↦ absurd (let l = rw (bad, save_parties) at k in cc)
      | inl (phone, fine) ↦
          save_parties-other r ps (upsert_party (party_row r phone p) stored) parties role
            (ground arith) (rw (fine, save_parties) at k)
          ∙ upsert_party-other (party_row r phone p) role stored (ground arith)
    ]

pub save_parties-Stored :
    (r : Request) (ps stored parties : List Party) (role : Role) (p : Party)
    → count (λ q. same_role role q.role) ps ≤ 1
    → of_role role ps ≡ some p
    → save_parties r ps stored ≡ ok parties
    → Stored role p parties
unfolding save_parties
save_parties-Stored r [] stored parties role p one h k = absurd (cc)
save_parties-Stored r (q ∷ ps) stored parties role p one h k =
    elim (Result-cases (canonical_phone q.phone)) [
      | inr (e, bad) ↦ absurd (let l = rw (bad, save_parties) at k in cc)
      | inl (phone, fine) ↦
          let rest = upsert_party (party_row r phone q) stored in
          let k' : save_parties r ps rest ≡ ok parties = rw (fine, save_parties) at k in
          elim (Bool-cases (same_role role q.role)) [
            | inr other ↦
                save_parties-Stored r ps rest parties role p (ground arith) (rw other at h) k'
            | inl own ↦
                let same : q ≡ p = some_injective (rw own at h) in
                let (shown, e) = upsert_party-own (party_row r phone q) role stored own in
                record {
                  row = record (party_row r phone q) { floor_note_shown = shown };
                  found = save_parties-other r ps rest parties role (ground arith) k' ∙ e;
                  written =
                      subst
                        (λ x. Written x (record (party_row r phone q) { floor_note_shown = shown }))
                        same (party_row_lem r q phone shown fine);
                }
          ]
    ]
