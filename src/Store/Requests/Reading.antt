-- ===== src/Store/Requests/Reading.antt =====
-- src/infrastructure/store.ts: the parties of a request as `request` reads them.
use zolo.Prelude.{
  Bool, true, false, none, some, List, [], ◌∷◌, ◌≡◌, refl, ◌∙◌, Bool-cases, inl, inr, map, find,
  filter, find-append, some_injective, ap,
}
use zolo.Domain.{Role, donor, receiver, same_role, is_donor, is_receiver, Party, Request}
use zolo.Store.Tables.{Db}
use zolo.Store.Requests.{fresh_party, read_row}
use zolo.Store.Requests.Parties.{of_role}

find-filter : (p : Party → Bool) (ps : List Party) → find p (filter p ps) ≡ find p ps
find-filter p [] = refl
find-filter p (x ∷ ps) = elim (Bool-cases (p x)) [
  | inl e ↦ rw (e, e) refl
  | inr e ↦ rw e (find-filter p ps)
]

one_role : (role : Role) → is_donor role ≡ true → is_receiver role ≡ false
one_role donor h = refl
one_role receiver h = absurd (cc)

no_receiver_among :
    (ps : List Party) → find (λ p. is_receiver p.role) (filter (λ p. is_donor p.role) ps) ≡ none
no_receiver_among [] = refl
no_receiver_among (x ∷ ps) = elim (Bool-cases (is_donor x.role)) [
  | inl e ↦ rw (e, one_role x.role e) (no_receiver_among ps)
  | inr e ↦ rw e (no_receiver_among ps)
]

fresh_parties :
    (r : Request) (role : Role) (ps : List Party) (p : Party)
    → of_role role ps ≡ some p
    → of_role role (map (fresh_party r) ps) ≡ some (fresh_party r p)
fresh_parties r role [] p h = absurd (cc)
fresh_parties r role (x ∷ ps) p h = elim (Bool-cases (same_role role x.role)) [
  | inl e ↦ rw e (ap (λ y. some (fresh_party r y)) (some_injective (rw e at h)))
  | inr e ↦ rw e (fresh_parties r role ps p (rw e at h))
]

-- The row of a role is read with its approval of the date computed anew.
pub read_row-of_role :
    (db : Db) (r : Request) (role : Role) (p : Party)
    → of_role role r.parties ≡ some p
    → of_role role (read_row db r).parties ≡ some (fresh_party r p)
unfolding read_row
read_row-of_role db r donor p h =
    let ps = map (fresh_party r) r.parties in
    find-append (λ p. is_donor p.role) (filter (λ p. is_donor p.role) ps)
      (filter (λ p. is_receiver p.role) ps)
    ∙ rw (find-filter (λ p. is_donor p.role) ps, fresh_parties r donor r.parties p h) refl
read_row-of_role db r receiver p h =
    let ps = map (fresh_party r) r.parties in
    find-append (λ p. is_receiver p.role) (filter (λ p. is_donor p.role) ps)
      (filter (λ p. is_receiver p.role) ps)
    ∙ rw
        (
          no_receiver_among ps,
          find-filter (λ p. is_receiver p.role) ps,
          fresh_parties r receiver r.parties p h,
        )
        refl
