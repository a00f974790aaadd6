-- ===== src/Store/Matches/Candidates.antt =====
-- src/infrastructure/store.ts: what `candidates` shows a searcher.
use zolo.Prelude.{
  ℕ, suc, ◌≤◌, String, true, false, ◌&&◌, ◌||◌, some, List, [], ◌∷◌, ◌≡◌, ◌≢◌, refl, sym, ap, ◌∙◌,
  arith, inl, inr, ◌⊎◌, map, filter, any, All, length, nat_eq, if◌then◌else◌, option_eq, string_eq,
  eq_complete, eq_sound, Option-cases, ◌==◌, Mem, any-Mem, none_fits, filter-Mem, is_false-not,
  is_false, All-map, and_left, and_right,
}
use zolo.Domain.{
  Request, Candidate, Item, ItemKind, kind_number, bed, sofa, wardrobe, fridge, oven, table_set,
  table, chairs, washing_machine, dryer, freezer, dishwasher, other, piano, house_move,
  RequestStatus, collecting, available, awaiting_approval, Role, donor, receiver, is_receiver,
}
use zolo.Store.Tables.{Db, SearchState, active, Search}
use zolo.Store.Requests.{read_row}
use zolo.Store.Matches.{
  is_candidate, is_active, offers, match_of, candidate_row, take_rows, candidates,
}

take_rows-length : (n : ℕ) (cs : List Candidate) → length (take_rows n cs) ≤ n
unfolding take_rows
take_rows-length n [] = omega arith
take_rows-length ℕ.zero (c ∷ cs) = omega arith
take_rows-length (suc n) (c ∷ cs) = omega (arith, take_rows-length n cs)

take_rows-All :
    (P : Candidate → Type 0) (n : ℕ) (cs : List Candidate) → All P cs → All P (take_rows n cs)
unfolding take_rows
take_rows-All P n [] h = tt
take_rows-All P ℕ.zero (c ∷ cs) h = tt
take_rows-All P (suc n) (c ∷ cs) h = (h.0, take_rows-All P n cs h.1)

-- The customer searches for a kind, and the request has an item of it.
pub record Wanted (db : Db) (phone : String) (row : Request) : Type 0 where
  pub search : Search
  pub stored : Mem search db.searches
  pub own : search.phone ≡ phone
  pub active : search.state ≡ active
  pub item : Item
  pub listed : Mem item row.items
  pub kind : item.kind ≡ search.kind

-- A stored request that fits the search of the phone: open, without a receiver, without a part of
-- the searcher, and with no item that was called sold or broken.
pub record Fits (db : Db) (phone : String) (c : Candidate) : Type 0 where
  pub row : Request
  pub stored : Mem row db.requests
  pub read : c.request ≡ read_row db row
  pub wanted : Wanted db phone row
  pub standing :
      (row.status ≡ collecting) ⊎ (row.status ≡ available) ⊎ (row.status ≡ awaiting_approval)
  pub no_receiver : All (λ p. p.role ≡ donor) row.parties
  pub no_part : All (λ p. p.phone ≢ phone) row.parties
  pub gifts : All (λ i. i.free ≢ some false) row.items
  pub working : All (λ i. i.working ≢ some false) row.items

kind_of : ℕ → ItemKind
kind_of n =
    if n == 0
    then bed
    else if n == 1
    then sofa
    else if n == 2
    then wardrobe
    else if n == 3
    then fridge
    else if n == 4
    then oven
    else if n == 5
    then table_set
    else if n == 6
    then table
    else if n == 7
    then chairs
    else if n == 8
    then washing_machine
    else if n == 9
    then dryer
    else if n == 10
    then freezer
    else if n == 11
    then dishwasher
    else if n == 12
    then other
    else if n == 13
    then piano
    else house_move

kind_of-kind_number : (k : ItemKind) → kind_of (kind_number k) ≡ k
unfolding kind_of
kind_of-kind_number bed = refl
kind_of-kind_number sofa = refl
kind_of-kind_number wardrobe = refl
kind_of-kind_number fridge = refl
kind_of-kind_number oven = refl
kind_of-kind_number table_set = refl
kind_of-kind_number table = refl
kind_of-kind_number chairs = refl
kind_of-kind_number washing_machine = refl
kind_of-kind_number dryer = refl
kind_of-kind_number freezer = refl
kind_of-kind_number dishwasher = refl
kind_of-kind_number other = refl
kind_of-kind_number piano = refl
kind_of-kind_number house_move = refl

kind_number_injective : (a b : ItemKind) → kind_number a ≡ kind_number b → a ≡ b
kind_number_injective a b h = sym (kind_of-kind_number a) ∙ ap kind_of h ∙ kind_of-kind_number b

active_lem : (s : SearchState) → is_active s ≡ true → s ≡ active
active_lem active h = refl
active_lem _ h = absurd (cc)

search_lem :
    (db : Db) (phone : String) (r : Request) (s : Search)
    → Mem s db.searches
    → (s.phone == phone
        && is_active s.state
        && any (λ i. kind_number i.kind == kind_number s.kind) r.items)
      ≡ true
    → Wanted db phone r
search_lem db phone r s there e =
    let alike = any (λ i. kind_number i.kind == kind_number s.kind) r.items in
    let first = and_left (s.phone == phone && is_active s.state) alike e in
    let (i, listed, same) =
      any-Mem (λ i. kind_number i.kind == kind_number s.kind) r.items
        (and_right (s.phone == phone && is_active s.state) alike e) in
    record {
      search = s;
      stored = there;
      own = eq_sound s.phone phone (and_left (s.phone == phone) (is_active s.state) first);
      active = active_lem s.state (and_right (s.phone == phone) (is_active s.state) first);
      item = i;
      listed = listed;
      kind =
          kind_number_injective i.kind s.kind
            (eq_sound (kind_number i.kind) (kind_number s.kind) same);
    }

wanted_lem :
    (db : Db) (phone : String) (r : Request)
    → any
        (λ s.
          s.phone == phone
          && is_active s.state
          && any (λ i. kind_number i.kind == kind_number s.kind) r.items)
        db.searches
      ≡ true
    → Wanted db phone r
wanted_lem db phone r h =
    let (s, there, e) = any-Mem _ db.searches h in search_lem db phone r s there e

offers_lem :
    (s : RequestStatus)
    → offers s ≡ true
    → (s ≡ collecting) ⊎ (s ≡ available) ⊎ (s ≡ awaiting_approval)
offers_lem collecting h = inl refl
offers_lem available h = inr (inl refl)
offers_lem awaiting_approval h = inr (inr refl)
offers_lem _ h = absurd (cc)

donor_lem : (role : Role) → is_receiver role ≡ false → role ≡ donor
donor_lem donor h = refl
donor_lem receiver h = absurd (cc)

Fits-row :
    (db : Db) (phone : String) (r : Request) (c : Candidate)
    → Mem r db.requests
    → c.request ≡ read_row db r
    → is_candidate db phone r ≡ true
    → Fits db phone c
Fits-row db phone r c there e h =
    let unsold = λ (i : Item). (is_false i.free || is_false i.working) ≡ false in
    let sound : All unsold r.items =
      none_fits (λ i. is_false i.free || is_false i.working) r.items (ground arith) in
    record {
      row = r;
      stored = there;
      read = e;
      wanted = wanted_lem db phone r (ground arith);
      standing = offers_lem r.status (ground arith);
      no_receiver =
          All-map (λ p. is_receiver p.role ≡ false) (λ p. p.role ≡ donor) r.parties
            (λ p. donor_lem p.role) (none_fits (λ p. is_receiver p.role) r.parties (ground arith));
      no_part =
          All-map (λ p. (p.phone == phone) ≡ false) (λ p. p.phone ≢ phone) r.parties
            (λ p f same. absurd (let k = eq_complete p.phone phone same in cc))
            (none_fits (λ p. p.phone == phone) r.parties (ground arith));
      gifts =
          All-map unsold (λ i. i.free ≢ some false) r.items
            (λ i f. is_false-not i.free (ground arith)) sound;
      working =
          All-map unsold (λ i. i.working ≢ some false) r.items
            (λ i f. is_false-not i.working (ground arith)) sound;
    }

candidate_row-request :
    (db : Db) (phone : String) (r : Request) → (candidate_row db phone r).request ≡ read_row db r
unfolding candidate_row
candidate_row-request db phone r = elim (Option-cases (match_of db phone r.id)) [
  | inl e ↦ rw (e, candidate_row) refl
  | inr (m, e) ↦ rw (e, candidate_row) refl
]

rows-Fits :
    (db : Db) (phone : String) (rs : List Request)
    → All (λ r. Mem r db.requests × (is_candidate db phone r ≡ true)) rs
    → All (Fits db phone) (map (candidate_row db phone) rs)
rows-Fits db phone [] h = tt
rows-Fits db phone (r ∷ rs) h = (
  Fits-row db phone r (candidate_row db phone r) h.0.0 (candidate_row-request db phone r) h.0.1,
  rows-Fits db phone rs h.1,
)

-- A searcher is shown five candidates at most, each the reading of a stored request that has an
-- item of the kind of an active search of the phone, whose status is collecting, available or
-- awaiting approval, all of whose parties are donors with other phones, and none of whose items
-- was called sold or out of order.
pub candidates-Fits :
    (db : Db) (phone : String)
    → All (Fits db phone) (candidates db phone) × (length (candidates db phone) ≤ 5)
unfolding candidates
candidates-Fits db phone =
    let rows = map (candidate_row db phone) (filter (is_candidate db phone) db.requests) in
    (
      take_rows-All (Fits db phone) 5 rows (
          rows-Fits db phone (filter (is_candidate db phone) db.requests)
            (filter-Mem (is_candidate db phone) db.requests)),
      take_rows-length 5 rows,
    )
