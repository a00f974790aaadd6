-- ===== src/Store/Matches.antt =====
-- src/infrastructure/store.ts: `candidates`, `linkPhoto` and `matchPhoto`.
pub mod Candidates
pub mod Photos
use zolo.Prelude.{
  ℕ, suc, String, Bool, true, false, ◌&&◌, ◌||◌, not, Option, none, some, List, [], ◌∷◌, ◌++◌, map,
  nat_eq, string_eq, option_eq, ◌==◌, if◌then◌else◌, is_false, find, any, filter, update, head?,
  error_status, ok, err, template, join, show,
}
use zolo.Domain.{
  kind_number, is_donor, is_receiver, RequestStatus, collecting, available, awaiting_approval, Item,
  Request, CandidateState, waiting_photo, queued_photo, Candidate, MessageKind, image, MediaState,
  ready, Incoming, Notice,
}
use zolo.Store.Tables.{formatted, Config, Db, SearchState, active, MatchRow, Tx, pure, ◌>>=◌, ◌>>◌}
use zolo.Store.Requests.{read_row, contact}
use zolo.Store.Outbox.{of_message, outbound}

abbrev pub is_active : SearchState → Bool
is_active active = true
is_active _ = false

abbrev pub offers : RequestStatus → Bool
offers collecting = true
offers available = true
offers awaiting_approval = true
offers _ = false

-- The condition of the query of `candidates`.
abbrev pub is_candidate : Db → String → Request → Bool
is_candidate db phone r =
    any
      (λ s.
        s.phone == phone
        && is_active s.state
        && any (λ i. kind_number i.kind == kind_number s.kind) r.items)
      db.searches
    && offers r.status
    && not (any (λ p. is_receiver p.role) r.parties)
    && not (any (λ p. p.phone == phone) r.parties)
    && not (any (λ i. is_false i.free || is_false i.working) r.items)

abbrev pub match_of : Db → String → ℕ → Option MatchRow
match_of db phone id = find (λ m. m.request_id == id && m.phone == phone) db.matches

unfoldable pub candidate_row : Db → String → Request → Candidate
unfolding read_row
candidate_row db phone r = elim (match_of db phone r.id) [
  | none ↦ record { request = read_row db r; match_id = none; state = none }
  | some m ↦ record { request = read_row db r; match_id = some m.id; state = some m.state }
]

unfoldable pub take_rows : ℕ → List Candidate → List Candidate
take_rows n [] = []
take_rows ℕ.zero (c ∷ cs) = []
take_rows (suc n) (c ∷ cs) = c ∷ take_rows n cs

-- At most five, in the order of the requests' numbers, which is that of their insertion.
unfoldable pub candidates : Db → String → List Candidate
unfolding candidate_row take_rows
candidates db phone =
    take_rows 5 (map (candidate_row db phone) (filter (is_candidate db phone) db.requests))

abbrev pub is_image : MessageKind → Bool
is_image image = true
is_image _ = false

abbrev pub is_ready : MediaState → Bool
is_ready ready = true
is_ready _ = false

abbrev pub may_link : Request → Incoming → Bool
may_link r m =
    is_image m.kind
    && is_ready m.media_state
    && any (λ p. is_donor p.role && some p.phone == m.phone) r.parties

abbrev pub add_photo : ℕ → Request → Request
add_photo media r =
    if any (λ x. x == media) r.photo_ids
    then r
    else record r { photo_ids = r.photo_ids ++ media ∷ [] }

-- `linkPhoto(c, r, m)`: the row of `request_media`, and `r` as it leaves it.
unfoldable pub link_media : Request → Bool → Option ℕ → Tx Request
link_media r may none db = err (error_status "photo_authorization_failed" 403)
link_media r may (some media) db =
    if not may
    then err (error_status "photo_authorization_failed" 403)
    else ok (
      add_photo media r,
      record db { requests = update (λ x. x.id == r.id) (add_photo media) db.requests },
    )

unfoldable pub link_photo : Request → Incoming → Tx Request
unfolding link_media
link_photo r m = link_media r (may_link r m) m.media_id

-- `CASE WHEN matches.state='waiting_photo' AND EXCLUDED.state='queued_photo' …`
abbrev pub merge_state : CandidateState → CandidateState → CandidateState
merge_state waiting_photo queued_photo = queued_photo
merge_state old _ = old

-- The upsert of `matches`, and the row that it returns.
unfoldable pub upsert_match : ℕ → String → CandidateState → Tx MatchRow
upsert_match request_id phone state db = elim (match_of db phone request_id) [
  | none ↦
      let row : MatchRow = record {
        id = db.fresh;
        request_id = request_id;
        phone = phone;
        state = state;
      } in
      ok (row, record db { fresh = suc db.fresh; matches = db.matches ++ row ∷ [] })
  | some old ↦
      let row = record old { state = merge_state old.state state } in
      ok (row, record db { matches = update (λ m. m.id == old.id) (λ _. row) db.matches })
]

abbrev is_queued : CandidateState → Bool
is_queued queued_photo = true
is_queued _ = false

abbrev descriptions : List Item → String
descriptions items = join ", " (map (λ i. i.description) items)

abbrev notice : String → String → Option ℕ → Option ℕ → Notice
notice phone text media_id match_id = record {
  phone = phone;
  text = text;
  media_id = media_id;
  match_id = match_id;
}

-- `matchPhoto(c, r, phone, ctx)`: the photograph goes to the searcher, or the donor is asked for one.
unfoldable pub match_photo : Config → Request → String → Incoming → Tx (Unit {0})
unfolding upsert_match outbound show
match_photo config r phone m = do
  owner ← contact phone
  elim (head? r.photo_ids) [
    | some photo ↦ do
      row ← upsert_match r.id owner queued_photo
      if is_queued row.state
          then (do
            outbound formatted config (of_message m)
                (notice phone
                  (template (
                    "\u{5e4}\u{5e0}\u{5d9}\u{5d9}\u{5d4} "
                    ∷ show r.number
                    ∷ ": "
                    ∷ descriptions r.items
                    ∷ ". \u{5d4}\u{5d0}\u{5dd} \u{5d4}\u{5e4}\u{5e8}\u{5d9}\u{5d8} \u{5de}\u{5ea}\u{5d0}\u{5d9}\u{5dd} \u{5dc}\u{5da}?"
                    ∷ []))
                  (some photo) (some row.id))
                (template ("match-photo:" ∷ show row.id ∷ [])) (some r.id)
            pure tt)
          else pure tt
    | none ↦ do
      upsert_match r.id owner waiting_photo
      elim (find (λ p. is_donor p.role) r.parties) [
        | none ↦ pure tt
        | some p ↦ do
          outbound formatted config (of_message m)
              (notice p.phone
                (template (
                  "\u{5d9}\u{5e9} \u{5de}\u{5ea}\u{5e2}\u{5e0}\u{5d9}\u{5d9}\u{5df} \u{5d1}\u{5e4}\u{5e8}\u{5d9}\u{5d8} \u{5e9}\u{5d1}\u{5e4}\u{5e0}\u{5d9}\u{5d9}\u{5d4} "
                  ∷ show r.number
                  ∷ ". \u{5e0}\u{5d0} \u{5dc}\u{5e9}\u{5dc}\u{5d5}\u{5d7} \u{5ea}\u{5de}\u{5d5}\u{5e0}\u{5d4} \u{5e9}\u{5dc} \u{5d4}\u{5e4}\u{5e8}\u{5d9}\u{5d8}."
                  ∷ []))
                none none)
              (template ("match-photo-request:" ∷ show r.id ∷ [])) (some r.id)
          pure tt
      ]
  ]
