-- ===== src/Commands/Searching.antt =====
-- src/application/commands.ts: `seek` and `interest`, the commands of a searcher.
use zolo.Prelude.{
  ℕ, String, Bool, true, false, not, Option, none, some, [], ◌∷◌, ◌++◌, nat_eq, string_eq,
  option_eq, ◌==◌, if◌then◌else◌, is_empty, find, any, update, Failure, app_error,
}
use zolo.Domain.{
  ItemKind, receiver, is_receiver, awaiting_approval, Request, CandidateState, presented,
  interested, unavailable, Candidate, Context,
}
use zolo.Policies.Parties.{mutable}
use zolo.Policies.Questions.{next_question}
use zolo.Policies.Wording.{question_text}
use zolo.Store.Tables.{Db, active, matched, Tx, pure, throw, lift, gets, modify, ◌>>=◌, ◌>>◌}
use zolo.Store.Requests.{request, contact}
use zolo.Store.Matches.{candidates, match_photo}
use zolo.Commands.Base.{Env, Outcome, output, new_party, select_request}

-- `INSERT INTO searches … ON CONFLICT(contact_id) DO UPDATE`
abbrev upsert_search : String → ItemKind → Db → Db
upsert_search phone kind db =
    if any (λ s. s.phone == phone) db.searches
    then record db {
      searches =
          update (λ s. s.phone == phone) (λ s. record s { kind = kind; state = active })
            db.searches;
    }
    else record db {
      searches = db.searches ++ record { phone = phone; kind = kind; state = active } ∷ [];
    }

unfoldable pub seek_command : Env → Context → ItemKind → Tx Outcome
unfolding candidates match_photo
seek_command e ctx kind = do
  let phone = ctx.conversation.phone
  owner ← contact phone
  modify (upsert_search owner kind)
  found ← gets (λ db. candidates db phone)
  elim found [
    | [] ↦ pure (
        output
          "\u{5db}\u{5e8}\u{5d2}\u{5e2} \u{5dc}\u{5d0} \u{5e0}\u{5de}\u{5e6}\u{5d0} \u{5e4}\u{5e8}\u{5d9}\u{5d8} \u{5de}\u{5ea}\u{5d0}\u{5d9}\u{5dd}. \u{5e0}\u{5e2}\u{5d3}\u{5db}\u{5df} \u{5db}\u{5e9}\u{5d9}\u{5d4}\u{5d9}\u{5d4} \u{5e4}\u{5e8}\u{5d9}\u{5d8} \u{5de}\u{5ea}\u{5d0}\u{5d9}\u{5dd}."
          none)
    | c ∷ _ ↦ do
      match_photo e.config c.request phone ctx.message
      pure (record (output "" none) {
        reply =
            if is_empty c.request.photo_ids
            then some
                "\u{5e0}\u{5d1}\u{5e7}\u{5e9} \u{5de}\u{5d4}\u{5de}\u{5d5}\u{5e1}\u{5e8} \u{5ea}\u{5de}\u{5d5}\u{5e0}\u{5d4} \u{5e9}\u{5dc} \u{5d4}\u{5e4}\u{5e8}\u{5d9}\u{5d8} \u{5d5}\u{5e0}\u{5e2}\u{5d3}\u{5db}\u{5df}."
            else none;
      })
  ]

abbrev is_presented : Option CandidateState → Bool
is_presented (some presented) = true
is_presented _ = false

abbrev pub match_unavailable : Failure
match_unavailable =
    app_error "match_unavailable" 409
      "\u{5d4}\u{5e4}\u{5e8}\u{5d9}\u{5d8} \u{5db}\u{5d1}\u{5e8} \u{5d0}\u{5d9}\u{5e0}\u{5d5} \u{5d6}\u{5de}\u{5d9}\u{5df}. \u{5e0}\u{5d7}\u{5e4}\u{5e9} \u{5e4}\u{5e8}\u{5d9}\u{5d8} \u{5de}\u{5ea}\u{5d0}\u{5d9}\u{5dd} \u{5e0}\u{5d5}\u{5e1}\u{5e3}."

abbrev pub photo_not_presented : Failure
photo_not_presented =
    app_error "photo_not_presented" 409
      "\u{5e7}\u{5d5}\u{5d3}\u{5dd} \u{5e0}\u{5e6}\u{5d9}\u{5d2} \u{5d0}\u{5ea} \u{5ea}\u{5de}\u{5d5}\u{5e0}\u{5ea} \u{5d4}\u{5e4}\u{5e8}\u{5d9}\u{5d8}. \u{5e0}\u{5e2}\u{5d3}\u{5db}\u{5df}."

abbrev pub match_taken : Failure
match_taken =
    app_error "match_taken" 409
      "\u{5d4}\u{5e4}\u{5e8}\u{5d9}\u{5d8} \u{5db}\u{5d1}\u{5e8} \u{5d0}\u{5d9}\u{5e0}\u{5d5} \u{5d6}\u{5de}\u{5d9}\u{5df}. \u{5e0}\u{5d7}\u{5e4}\u{5e9} \u{5e4}\u{5e8}\u{5d9}\u{5d8} \u{5de}\u{5ea}\u{5d0}\u{5d9}\u{5dd} \u{5e0}\u{5d5}\u{5e1}\u{5e3}."

-- The searcher's match is taken, and every other one of the request is over.
abbrev pub take_match : ℕ → Option ℕ → String → Db → Db
take_match request_id match_id phone db = record db {
  matches =
      update (λ m. m.request_id == request_id)
        (λ m. record m { state = if some m.id == match_id then interested else unavailable })
        db.matches;
  searches = update (λ s. s.phone == phone) (λ s. record s { state = matched }) db.searches;
}

abbrev joined : Env → String → Request → Request
joined e phone r = record r {
  parties = r.parties ++ new_party e.now receiver phone false ∷ [];
  status = awaiting_approval;
}

-- The part of `interest` behind the search of the candidate.
unfoldable pub take_candidate : Env → Context → Candidate → Tx Outcome
unfolding request mutable next_question question_text
take_candidate e ctx c = do
  let phone = ctx.conversation.phone
  r ← request c.request.id
  lift (mutable r)
  if not (is_presented c.state) then throw photo_not_presented else do
    if any (λ p. is_receiver p.role) r.parties then throw match_taken else do
      let r' = joined e phone r
      modify (take_match r.id c.match_id phone)
      select_request ctx.conversation.id (some r.id)
      asked ← lift (next_question r' phone)
      pure (output (question_text e.before asked.question) (some r'))

unfoldable pub interest_command : Env → Context → ℕ → Tx Outcome
unfolding take_candidate
interest_command e ctx number = elim (find (λ c. c.request.number == number) ctx.candidates) [
  | none ↦ throw match_unavailable
  | some c ↦ take_candidate e ctx c
]
