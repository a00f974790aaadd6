-- ===== src/Commands/Details.antt =====
-- src/application/commands.ts: the command `details`, what a customer says of a party.
use zolo.Prelude.{
  ℕ, String, Bool, true, false, ◌&&◌, ◌||◌, not, Option, none, some, [], ◌∷◌, nat_eq, string_eq,
  option_eq, int_eq, ◌==◌, if◌then◌else◌, is_some, is_none, ℤ, pos, find, filter, any, update,
  update_first, last?, ◌⊎◌, inl, inr, Result, ok, err, filled, text_of, includes, template, trim,
}
use zolo.Regex.{Regex, start, finish, word, words, one_of, opt, ahead, alt, seq, seqs, space, test}
use zolo.Domain.{
  Role, receiver, is_donor, is_receiver, is_direct, RequestStatus, collecting, human, rejected,
  DetailsCommand, Party, Request, Context,
}
use zolo.Policies.Parties.{own_test, own_party}
use zolo.Policies.Questions.{beit_shean}
use zolo.Policies.Wording.{human_reply, outside_text}
use zolo.Store.Tables.{Db, Decision, allowed, outside, review, Tx, pure, lift, gets, ◌>>=◌}
use zolo.Store.Regions.{region}
use zolo.Commands.Base.{Env, Outcome, output, for_human, message_text, invalidate_proposal}

-- "I was wrong", "correction", "actually", "I meant".
abbrev corrects : Regex
corrects = words "\u{5d8}\u{5e2}\u{5d9}\u{5ea}\u{5d9}" (
    "\u{5ea}\u{5d9}\u{5e7}\u{5d5}\u{5df}" ∷ "\u{5d1}\u{5e2}\u{5e6}\u{5dd}"
    ∷ "\u{5d4}\u{5ea}\u{5db}\u{5d5}\u{5d5}\u{5e0}\u{5ea}\u{5d9}" ∷ [])

unfoldable pub says_correction : String → Bool
unfolding test
says_correction text = test corrects text

abbrev pub is_rejected : RequestStatus → Bool
is_rejected rejected = true
is_rejected _ = false

abbrev is_allowed : Decision → Bool
is_allowed allowed = true
is_allowed _ = false

-- The last event of a request is its refusal for the area.
abbrev pub last_refused : Db → ℕ → Bool
last_refused db id = elim (last? (filter (λ ev. ev.request_id == some id) db.events)) [
  | none ↦ false
  | some ev ↦ ev.event_type == "outside_area_rejected"
]

-- A request that was refused for its area is open again when the customer corrects the place.
unfoldable pub reopened : Env → Db → Context → DetailsCommand → Request → Request
unfolding says_correction region
reopened e db ctx c r =
    if is_rejected r.status
      && filled c.settlement
      && says_correction (message_text ctx)
      && any (λ p. p.phone == ctx.conversation.phone) r.parties
      && last_refused db r.id
      && is_allowed (region e.nfkc e.before db (text_of c.settlement)).decision
    then record r { status = collecting; human_reason = none }
    else r

abbrev fits : Option String → Option String → Bool
fits new old = not (filled new) || not (filled old) || old == new

abbrev fits_floor : Option ℤ → Option ℤ → Bool
fits_floor new old = is_none new || is_none old || old == new

-- The command fills only what the receiver lacks.
abbrev pub fills_missing : DetailsCommand → Party → Bool
fills_missing c p =
    fits c.name p.name
    && fits c.settlement p.settlement
    && fits c.address p.address
    && fits_floor c.floor p.floor

abbrev asks_receiver : Option Role → Bool
asks_receiver (some receiver) = true
asks_receiver _ = false

-- The donor of a direct handoff speaks for the receiver, who has not approved.
abbrev pub may_provide : String → DetailsCommand → Request → Party → Bool
may_provide phone c r p =
    is_direct r.origin
    && asks_receiver c.role
    && elim (find (λ q. q.phone == phone) r.parties) [
      | none ↦ false
      | some actor ↦ is_donor actor.role
    ]
    && is_none p.approved_at
    && fills_missing c p

-- Which party the command writes to: the first that the test passes.
unfoldable pub details_target : String → DetailsCommand → Request → Result (Party → Bool)
unfolding own_party own_test
details_target phone c r = elim (own_party r phone c.role) [
  | ok _ ↦ ok (own_test r phone c.role)
  | err f ↦ elim (find (λ p. is_receiver p.role) r.parties) [
    | none ↦ err f
    | some p ↦ if may_provide phone c r p then ok (λ q. is_receiver q.role) else err f
  ]
]

abbrev street_start : Regex
street_start = words "\u{5e8}\u{5d7}\u{5d5}\u{5d1}" (
    "\u{5e9}\u{5d9}\u{5db}\u{5d5}\u{5df}" ∷ "\u{5e9}\u{5db}\u{5d5}\u{5e0}\u{5d4}"
    ∷ "\u{5e9}\u{5db}\u{5d5}\u{5e0}\u{5ea}" ∷ "\u{5e9}\u{5d3}\u{5e8}\u{5d5}\u{5ea}"
    ∷ "\u{5e9}\u{5d3}" ∷ [])

-- The settlement is a part of the street's name.
unfoldable pub settlement_is_street : DetailsCommand → Bool
unfolding test includes
settlement_is_street c =
    filled c.settlement
    && filled c.address
    && test (seq start street_start) (text_of c.address)
    && includes (text_of c.settlement) (text_of c.address)

abbrev street_word : Regex
street_word = seqs (
    start
    ∷ alt
        (words "\u{5e8}\u{5d7}\u{5d5}\u{5d1}" (
          "\u{5e9}\u{5db}\u{5d5}\u{5e0}\u{5ea}" ∷ "\u{5e9}\u{5db}\u{5d5}\u{5e0}\u{5d4}"
          ∷ "\u{5e9}\u{5d3}\u{5e8}\u{5d5}\u{5ea}" ∷ []))
        (seq (word "\u{5e9}\u{5d3}") (opt (one_of "\u{5f3}'")))
    ∷ ahead (alt finish space)
    ∷ [])

unfoldable pub looks_like_street : String → Bool
unfolding test
looks_like_street address = test street_word address

-- The floor counts only in Beit Shean.
abbrev floor_for : Option String → Option ℤ → Option ℤ → Option ℤ
floor_for settlement new old =
    if filled settlement && not (settlement == some beit_shean)
    then some (pos 0)
    else if settlement == some beit_shean && is_some new
    then new
    else old

-- The party with what the command says of it; `place` is the region's name of its settlement.
unfoldable pub provided : DetailsCommand → Option String → Party → Party
unfolding trim
provided c place p =
    let settlement = elim place as (λ _. Option String) [ none ↦ p.settlement | some s ↦ some s ] in
    record p {
      settlement = settlement;
      name = if filled c.name then c.name else p.name;
      address = if filled c.address then some (trim (text_of c.address)) else p.address;
      floor = floor_for settlement c.floor p.floor;
    }

abbrev named : DetailsCommand → String → Request → Request
named c phone r =
    if filled c.name && r.represents_both_parties
    then record r {
      parties = update (λ p. p.phone == phone) (λ p. record p { name = c.name }) r.parties;
    }
    else r

unfoldable pub unknown_street : String → String
unknown_street address = template (
    "\u{5dc}\u{5d0} \u{5de}\u{5e6}\u{5d0}\u{5ea}\u{5d9} \u{5d0}\u{5ea} \"" ∷ address
    ∷ "\" \u{5d1}\u{5de}\u{5d0}\u{5d2}\u{5e8} \u{5d4}\u{5e8}\u{5d7}\u{5d5}\u{5d1}\u{5d5}\u{5ea}. \u{5d0}\u{5dd} \u{5d6}\u{5d4} \u{5e9}\u{5dd} \u{5de}\u{5e7}\u{5d5}\u{5de}\u{5d9} \u{5d0}\u{5d5} \u{5db}\u{5d9}\u{5e0}\u{5d5}\u{5d9}, \u{5d0}\u{5e9}\u{5e8} \u{5e9}\u{5d6}\u{5d4} \u{5e0}\u{5db}\u{5d5}\u{5df}; \u{5d0}\u{5d7}\u{5e8}\u{5ea} \u{5db}\u{5ea}\u{5d5}\u{5d1} \u{5d0}\u{5ea} \u{5d4}\u{5e8}\u{5d7}\u{5d5}\u{5d1}/\u{5d4}\u{5e9}\u{5db}\u{5d5}\u{5e0}\u{5d4} \u{5de}\u{5d7}\u{5d3}\u{5e9}."
    ∷ [])

abbrev is_review : Decision → Bool
is_review review = true
is_review _ = false

-- The writes, and the question about a street that the data lack.
unfoldable pub write_details :
    Env
    → Context
    → DetailsCommand
    → (Party → Bool)
    → Option String
    → Request
    → Tx (Outcome ⊎ Request)
unfolding provided looks_like_street unknown_street region trim
write_details e ctx c own place r = do
  let r' =
      named c ctx.conversation.phone
        (record r { parties = update_first own (provided c place) r.parties })
  let address = trim (text_of c.address)
  known ← gets (λ db. region e.nfkc e.before db address)
  pure (
      if filled c.address && looks_like_street address && is_review known.decision
      then inl (output (unknown_street address) (some r'))
      else inr r')

unfoldable pub details_command : Env → Context → DetailsCommand → Request → Tx (Outcome ⊎ Request)
unfolding details_target settlement_is_street write_details region
details_command e ctx c r₀ = do
  let changes = filled c.name || filled c.settlement || filled c.address || is_some c.floor
  let r = if changes then invalidate_proposal r₀ else r₀
  own ← lift (details_target ctx.conversation.phone c r)
  if not (filled c.settlement) || settlement_is_street c
      then write_details e ctx c own none r
      else do
        place ← gets (λ db. region e.nfkc e.before db (text_of c.settlement))
        elim place.decision [
          | outside ↦ pure (inl (output outside_text (some (record r { status = rejected }))))
          | review ↦ pure (
              inl (
                for_human "borderline_area" (
                  output human_reply
                    (some (record r { status = human; human_reason = some "borderline_area" })))))
          | allowed ↦ write_details e ctx c own (some place.name) r
        ]
