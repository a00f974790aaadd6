-- ===== src/Examples/Rows.antt =====
-- The rows of requests, messages, candidates and photographs.
use zolo.Prelude.{
  ◌≤◌, true, none, some, List, [], ◌∷◌, ◌≡◌, refl, arith, ok, err, length, All, nat_eq,
}
use zolo.Domain.{
  Candidate, sofa, live, donor, receiver, Party, Request, image, ready, Incoming, Notice,
}
use zolo.Policies.Phone.{canonical_phone}
use zolo.Policies.Phone.Laws.{IsNational, canonical_phone-IsNational}
use zolo.Store.Tables.{active, Db, unsent, formatted, Outbound}
use zolo.Store.Requests.{version_conflict, save_parties, save, request}
use zolo.Store.Requests.Saving.{written, save-stale}
use zolo.Store.Requests.Parties.{floor_flag, save_parties-floor_flag}
use zolo.Store.Outbox.{outbound}
use zolo.Store.Outbox.Queue.{InOrder, outbound-InOrder}
use zolo.Store.Matches.{candidates}
use zolo.Store.Matches.Candidates.{Fits, candidates-Fits}
use zolo.Examples.Data.{config, unoffered, db_of, party, giver, taker, incoming}

abbrev db : Db
db = db_of (unoffered ∷ [])

abbrev saved : Request
saved = record unoffered { version = 4 }

abbrev after : Db
after = written unoffered unoffered.parties db

saves : save unoffered db ≡ ok (saved, after)
unfolding save canonical_phone
saves = refl

save-stale_example : save unoffered after ≡ err version_conflict
save-stale_example = save-stale unoffered saved db after unoffered saves refl refl

abbrev shown : List Party
shown = record (party donor giver true none) { floor_note_shown = true } ∷ []

abbrev kept : List Party
kept =
    record (party donor giver true none) { floor_note_shown = true }
    ∷ party receiver taker true none
    ∷ []

keeps : save_parties unoffered unoffered.parties shown ≡ ok kept
unfolding save_parties canonical_phone
keeps = refl

save_parties-floor_flag_example : floor_flag donor kept ≡ some true
save_parties-floor_flag_example =
    save_parties-floor_flag unoffered unoffered.parties shown kept donor true refl keeps

canonical : canonical_phone "+972 58-415-2101@c.us" ≡ ok "584152101"
unfolding canonical_phone
canonical = refl

canonical_phone-IsNational_example : IsNational "+972 58-415-2101@c.us" "584152101"
canonical_phone-IsNational_example =
    canonical_phone-IsNational "+972 58-415-2101@c.us" "584152101" canonical

abbrev hello : Notice
hello = record { phone = taker; text = "hello"; media_id = none; match_id = none }

abbrev row : Outbound
row = record {
  id = 100;
  dedupe_key = "k";
  request_id = none;
  phone = taker;
  chat_id = "972541234567@c.us";
  text = "hello";
  media_id = none;
  match_id = none;
  mode = live;
  state = unsent;
  format_state = formatted;
  has_job = true;
}

abbrev queued : Db
queued = record db { fresh = 101; outbox = row ∷ [] }

queues :
    outbound formatted config
      (record { mode = live; phone = none; chat_id = none })
      hello
      "k"
      none
      db
    ≡ ok (some 100, queued)
unfolding outbound canonical_phone
queues = refl

empty-InOrder : InOrder config db.outbox
empty-InOrder = record { once = λ key. omega arith; one_turn = λ phone. omega arith; alerts = tt }

outbound-InOrder_example : InOrder config queued.outbox
outbound-InOrder_example =
    outbound-InOrder formatted config (record { mode = live; phone = none; chat_id = none }) hello
      "k" none (some 100) db queued empty-InOrder queues

-- A customer who looks for a sofa, and a request that nobody takes yet.
abbrev unmatched : Request
unmatched = record unoffered { parties = party donor giver true none ∷ [] }

abbrev looking : Db
looking = record (db_of (unmatched ∷ [])) {
  searches = record { phone = "531234567"; kind = sofa; state = active } ∷ [];
}

abbrev shown_one : Candidate
shown_one = record { request = unmatched; match_id = none; state = none }

shows : candidates looking "531234567" ≡ shown_one ∷ []
unfolding candidates
shows = refl

candidates-Fits_example :
    All (Fits looking "531234567") (candidates looking "531234567")
    × (length (candidates looking "531234567") ≤ 5)
candidates-Fits_example = candidates-Fits looking "531234567"

abbrev picture : Incoming
picture = incoming image ready (some 9) giver ""

abbrev linked : Request
linked = record unoffered { photo_ids = 9 ∷ [] }
