-- ===== src/Commands/Linking.antt =====
-- src/application/commands.ts: the commands that link the second party of a request, and that
-- contact it: `counterparty_candidate`, `confirm_counterparty`, `contact_counterparty` and
-- `counterparty`.
use zolo.Prelude.{
  ℕ, suc, ℤ, pos, negsuc, String, Bool, true, false, ◌&&◌, ◌||◌, not, Option, none, some, List, [],
  ◌∷◌, ◌++◌, map, nat_eq, string_eq, option_eq, ◌==◌, if◌then◌else◌, is_some, is_none, or_else,
  find, any, update, ◌⊎◌, inl, inr, Failure, app_error, filled, text_of, truthy, template, join,
  show,
}
use zolo.Domain.{
  Role, receiver, is_donor, is_receiver, same_role, other_role, direct, is_direct,
  CounterpartyCommand, CandidateCommand, Item, Party, Request, Context,
}
use zolo.Policies.Parties.{own_party}
use zolo.Policies.Questions.{next_question}
use zolo.Policies.Wording.{question_text}
use zolo.Store.Tables.{Db, VerificationRow, Tx, pure, throw, lift, gets, modify, ◌>>=◌, ◌>>◌}
use zolo.Commands.Base.{
  Env, Outcome, output, notify, notice, new_party, supplied_phone, phone_not_supplied,
  invalidate_proposal, set_pending, set_pending_name,
}

abbrev has_receiver : Request → Bool
has_receiver r = any (λ p. is_receiver p.role) r.parties

abbrev pub receiver_linked : Failure
receiver_linked =
    app_error "party_already_linked" 409
      "\u{5db}\u{5d1}\u{5e8} \u{5e7}\u{5d9}\u{5d9}\u{5dd} \u{5de}\u{5e7}\u{5d1}\u{5dc} \u{5d1}\u{5e4}\u{5e0}\u{5d9}\u{5d9}\u{5d4} \u{5d4}\u{5d6}\u{5d5}."

abbrev descriptions : Request → String
descriptions r = join ", " (map (λ (i : Item). i.description) r.items)

unfoldable pub candidate_command : Context → CandidateCommand → Request → Tx Outcome
unfolding supplied_phone
candidate_command ctx c r = if has_receiver r then throw receiver_linked else do
  phone ← lift (supplied_phone ctx c.phone)
  set_pending ctx.conversation.id c.name (some phone)
  let display = if filled c.name then template (text_of c.name ∷ " (" ∷ phone ∷ ")" ∷ []) else phone
  pure (
      output
        (template (
          "\u{5e7}\u{5d9}\u{5d1}\u{5dc}\u{5ea}\u{5d9} \u{5d0}\u{5ea} \u{5d0}\u{5d9}\u{5e9} \u{5d4}\u{5e7}\u{5e9}\u{5e8} \u{5e9}\u{5dc} "
          ∷ display
          ∷ ". \u{5d4}\u{5d0}\u{5dd} \u{5d4}\u{5ea}\u{5db}\u{5d5}\u{5d5}\u{5e0}\u{5ea} \u{5dc}\u{5de}\u{5e1}\u{5d5}\u{5e8} \u{5dc}\u{5d5}/\u{5dc}\u{5d4} \u{5d0}\u{5ea} "
          ∷ descriptions r
          ∷ "? \u{5db}\u{5ea}\u{5d5}\u{5d1} \u{5db}\u{5df} \u{5d0}\u{5d5} \u{5dc}\u{5d0}."
          ∷ []))
        (some r))

-- Items of a direct handoff count as working unless it was said otherwise.
abbrev pub assume_working : Item → Item
assume_working i = if is_none i.working then record i { working = some true } else i

abbrev pub linked : Env → Option String → String → Request → Request
linked e name phone r = record r {
  parties = r.parties ++ record (new_party e.now receiver phone false) { name = name } ∷ [];
  origin = direct;
  items = map assume_working r.items;
}

abbrev pub candidate_missing : Failure
candidate_missing =
    app_error "counterparty_candidate_missing" 409
      "\u{5d0}\u{5d9}\u{5df} \u{5d0}\u{5d9}\u{5e9} \u{5e7}\u{5e9}\u{5e8} \u{5e9}\u{5de}\u{5de}\u{5ea}\u{5d9}\u{5df} \u{5dc}\u{5d0}\u{5d9}\u{5e9}\u{5d5}\u{5e8}."

unfoldable pub confirm_command : Env → Context → Bool → Request → Tx Outcome
unfolding next_question question_text
confirm_command e ctx accept r = elim (truthy ctx.conversation.pending_counterparty_phone) [
  | none ↦ throw candidate_missing
  | some phone ↦ do
    let name = ctx.conversation.pending_counterparty_name
    set_pending ctx.conversation.id none none
    if not accept
        then pure (
            output
              "\u{5d1}\u{5e1}\u{5d3}\u{5e8}, \u{5dc}\u{5d0} \u{5e7}\u{5d9}\u{5e9}\u{5e8}\u{5ea}\u{5d9} \u{5d0}\u{5ea} \u{5d0}\u{5d9}\u{5e9} \u{5d4}\u{5e7}\u{5e9}\u{5e8} \u{5dc}\u{5e4}\u{5e0}\u{5d9}\u{5d9}\u{5d4}. \u{5e0}\u{5de}\u{5e9}\u{5d9}\u{5da} \u{5d1}\u{5de}\u{5e1}\u{5d9}\u{5e8}\u{5d4} \u{5d4}\u{5db}\u{5dc}\u{5dc}\u{5d9}\u{5ea}."
              (some r))
        else if has_receiver r
        then throw receiver_linked
        else do
          let r' = linked e name phone r
          asked ← lift (next_question r' ctx.conversation.phone)
          pure (
              output
                (template (
                  "\u{5de}\u{5e2}\u{5d5}\u{5dc}\u{5d4}, \u{5e7}\u{5d9}\u{5e9}\u{5e8}\u{5ea}\u{5d9} \u{5d0}\u{5ea} "
                  ∷ text_of (or_else name (some phone))
                  ∷ " \u{5db}\u{5de}\u{5e7}\u{5d1}\u{5dc}/\u{5ea}.\n"
                  ∷ question_text e.before asked.question
                  ∷ []))
                (some r'))
]

-- The states of a verification in which the second party was contacted.
unfoldable pub was_contacted : Option VerificationRow → Bool
was_contacted none = false
was_contacted (some v) =
    any (λ s. v.state == s)
      ("consented" ∷ "queued" ∷ "provider_accepted" ∷ "delivered" ∷ "approved" ∷ [])

abbrev pub verification_on : Db → ℕ → Role → Option VerificationRow
verification_on db id role =
    find (λ v. v.request_id == id && same_role v.role role) db.verifications

abbrev verification_row : Env → ℕ → Role → Bool → VerificationRow
verification_row e id role contact = record {
  request_id = id;
  role = role;
  state = if contact then "consented" else "declined";
  consented_at = if contact then some e.now.wall else none;
  last_error = if contact then none else some "user_declined_contact";
}

-- `INSERT INTO request_verifications … ON CONFLICT(request_id,role) DO UPDATE`
abbrev upsert_verification : VerificationRow → Db → Db
upsert_verification row db =
    if is_some (verification_on db row.request_id row.role)
    then record db {
      verifications =
          update (λ v. v.request_id == row.request_id && same_role v.role row.role) (λ _. row)
            db.verifications;
    }
    else record db { verifications = db.verifications ++ row ∷ [] }

abbrev floor_text : ℤ → String
floor_text (pos n) = unfold show in template ("\u{5e7}\u{5d5}\u{5de}\u{5d4} " ∷ show n ∷ [])
floor_text (negsuc n) =
    unfold show in template ("\u{5e7}\u{5d5}\u{5de}\u{5d4} -" ∷ show (suc n) ∷ [])

abbrev part : Option String → List String
part s = if filled s then text_of s ∷ [] else []

abbrev floor_part : Option ℤ → List String
floor_part none = []
floor_part (some f) = floor_text f ∷ []

given_text : Party → String
given_text p =
    if filled p.settlement || filled p.address || is_some p.floor
    then template (
        "\n\u{5d4}\u{5e4}\u{5e8}\u{5d8}\u{5d9}\u{5dd} \u{5e9}\u{5e0}\u{5de}\u{5e1}\u{5e8}\u{5d5}: "
        ∷ join ", " (part p.settlement ++ part p.address ++ floor_part p.floor)
        ∷ "."
        ∷ [])
    else ""

contact_text : Request → String → Party → String
unfolding given_text show
contact_text r phone p =
    let by_donor = elim (find (λ (q : Party). is_donor q.role) r.parties) as (λ _. Bool) [
      | none ↦ false
      | some q ↦ phone == q.phone
    ] in
    template (
      "\u{5e9}\u{5dc}\u{5d5}\u{5dd}"
      ∷ (if filled p.name then template (" " ∷ text_of p.name ∷ []) else "")
      ∷ ",\n\n\u{5e4}\u{5e0}\u{5d9}\u{5d9}\u{5d4} "
      ∷ show r.number
      ∷ ": "
      ∷ descriptions r
      ∷ ". "
      ∷ (if by_donor
          then "\u{5d4}\u{5de}\u{5d5}\u{5e1}\u{5e8}"
          else "\u{5d4}\u{5de}\u{5e7}\u{5d1}\u{5dc}")
      ∷ " \u{5d1}\u{5d9}\u{5e7}\u{5e9} \u{5e9}\u{5e0}\u{5e4}\u{5e0}\u{5d4} \u{5d0}\u{5dc}\u{5d9}\u{5da} \u{5dc}\u{5d0}\u{5d9}\u{5de}\u{5d5}\u{5ea} \u{5d4}\u{5e4}\u{5e8}\u{5d8}\u{5d9}\u{5dd}."
      ∷ given_text p
      ∷ "\n\u{5e0}\u{5d0} \u{5dc}\u{5d0}\u{5e9}\u{5e8} \u{5d0}\u{5ea} \u{5d7}\u{5dc}\u{5e7}\u{5da} \u{5d1}"
      ∷ (if is_donor p.role
          then "\u{5de}\u{5e1}\u{5d9}\u{5e8}\u{5d4}"
          else "\u{5e7}\u{5d1}\u{5dc}\u{5d4}")
      ∷ "."
      ∷ [])

abbrev select_for : String → ℕ → Db → Db
select_for phone id db = record db {
  conversations =
      update (λ c. c.phone == phone)
        (λ c. record c { selected_request_id = some id; version = suc c.version }) db.conversations;
}

abbrev pub counterparty_not_ready : Failure
counterparty_not_ready =
    app_error "counterparty_not_ready" 409
      "\u{5e0}\u{5d0} \u{5dc}\u{5e9}\u{5dc}\u{5d5}\u{5d7} \u{5e7}\u{5d5}\u{5d3}\u{5dd} \u{5d0}\u{5ea} \u{5de}\u{5e1}\u{5e4}\u{5e8} \u{5d4}\u{5e6}\u{5d3} \u{5d4}\u{5e9}\u{5e0}\u{5d9} \u{5d0}\u{5d5} \u{5db}\u{5e8}\u{5d8}\u{5d9}\u{5e1} \u{5d0}\u{5d9}\u{5e9} \u{5e7}\u{5e9}\u{5e8}."

abbrev decided : Bool → Request → Request
decided true r = record r { verification_contacted = true }
decided false r = invalidate_proposal (record r { verification_contacted = false })

unfoldable pub contact_other_party : Env → Context → Bool → Request → Party → Tx Outcome
unfolding was_contacted contact_text next_question question_text
contact_other_party e ctx contact r p = do
  let phone = ctx.conversation.phone
  state ← gets (λ db. verification_on db r.id p.role)
  if r.verification_contacted || was_contacted state
      then pure (
          output
            "\u{5d4}\u{5e4}\u{5e0}\u{5d9}\u{5d9}\u{5d4} \u{5dc}\u{5e6}\u{5d3} \u{5d4}\u{5e9}\u{5e0}\u{5d9} \u{5db}\u{5d1}\u{5e8} \u{5d1}\u{5d5}\u{5e6}\u{5e2}\u{5d4}."
            (some r))
      else do
        let r' = decided contact r
        modify (upsert_verification (verification_row e r.id p.role contact))
        if contact then modify (select_for p.phone r.id) else pure tt
        asked ← lift (next_question r' phone)
        pure (
            notify (if contact then notice p.phone (contact_text r' phone p) ∷ [] else []) (
              output
                (template (
                  (if contact
                    then "\u{5e0}\u{5e4}\u{5e0}\u{5d4} \u{5dc}\u{5e6}\u{5d3} \u{5d4}\u{5e9}\u{5e0}\u{5d9} \u{5e2}\u{5db}\u{5e9}\u{5d9}\u{5d5} \u{5dc}\u{5e6}\u{5d5}\u{5e8}\u{5da} \u{5d0}\u{5d9}\u{5de}\u{5d5}\u{5ea}."
                    else "\u{5d1}\u{5e1}\u{5d3}\u{5e8}, \u{5dc}\u{5d0} \u{5e0}\u{5e4}\u{5e0}\u{5d4} \u{5dc}\u{5e6}\u{5d3} \u{5d4}\u{5e9}\u{5e0}\u{5d9} \u{5db}\u{5e8}\u{5d2}\u{5e2}.")
                  ∷ "\n"
                  ∷ question_text e.before asked.question
                  ∷ []))
                (some r')))

unfoldable pub contact_command : Env → Context → Bool → Request → Tx Outcome
unfolding contact_other_party
contact_command e ctx contact r =
    elim (find (λ p. not (p.phone == ctx.conversation.phone)) r.parties) [
      | none ↦ throw counterparty_not_ready
      | some p ↦
          if not (is_direct r.origin)
          then throw counterparty_not_ready
          else contact_other_party e ctx contact r p
    ]

-- `counterparty`: without a phone the name alone is kept, and the command is at its end.
unfoldable pub name_counterparty : Context → CounterpartyCommand → Role → Request → Tx Outcome
name_counterparty ctx c role r =
    if not (is_receiver role) || not (filled c.name) then throw phone_not_supplied else do
      set_pending_name ctx.conversation.id c.name
      pure (
          output
            (template (
              "\u{5e8}\u{5e9}\u{5de}\u{5ea}\u{5d9} \u{5e9}\u{5d4}\u{5de}\u{5e7}\u{5d1}\u{5dc} \u{5d4}\u{5d5}\u{5d0} "
              ∷ text_of c.name
              ∷ ". \u{5db}\u{5d3}\u{5d9} \u{5e9}\u{5e0}\u{5d5}\u{5db}\u{5dc} \u{5dc}\u{5ea}\u{5d0}\u{5dd} \u{5d0}\u{5d9}\u{5ea}\u{5d5} \u{5d1}\u{5be}WhatsApp, \u{5e0}\u{5d0} \u{5dc}\u{5e9}\u{5dc}\u{5d5}\u{5d7} \u{5d0}\u{5ea} \u{5de}\u{5e1}\u{5e4}\u{5e8} \u{5d4}\u{5d8}\u{5dc}\u{5e4}\u{5d5}\u{5df} \u{5e9}\u{5dc}\u{5d5} \u{5d0}\u{5d5} \u{5db}\u{5e8}\u{5d8}\u{5d9}\u{5e1} \u{5d0}\u{5d9}\u{5e9} \u{5e7}\u{5e9}\u{5e8}. \u{5d0}\u{5dd} \u{5d0}\u{5d9}\u{5df} \u{5dc}\u{5da} \u{5d0}\u{5ea} \u{5d4}\u{5de}\u{5e1}\u{5e4}\u{5e8}, \u{5db}\u{5ea}\u{5d5}\u{5d1} \"\u{5d0}\u{5d9}\u{5df} \u{5dc}\u{5d9} \u{5de}\u{5e1}\u{5e4}\u{5e8}\" \u{5d5}\u{5e0}\u{5de}\u{5e9}\u{5d9}\u{5da} \u{5dc}\u{5d7}\u{5d9}\u{5e4}\u{5d5}\u{5e9} \u{5de}\u{5e7}\u{5d1}\u{5dc} \u{5de}\u{5ea}\u{5d0}\u{5d9}\u{5dd}."
              ∷ []))
            (some r))

-- The name of the second party: that of the contact card, the one the customer gave, the command's.
unfoldable pub linked_name : Context → CounterpartyCommand → String → Option String
linked_name ctx c phone =
    or_else
      (elim (find (λ x. x.phone == phone) ctx.message.contacts) [ none ↦ none | some x ↦ x.name ])
      (or_else ctx.conversation.pending_counterparty_name c.name)

abbrev two_of_one_phone : List Party → Bool
two_of_one_phone (p ∷ q ∷ []) = p.phone == q.phone
two_of_one_phone _ = false

-- The request with the second party: a direct handoff, off its proposed date. Consent is
-- carried over only where the two parties are one person who has approved.
unfoldable pub with_counterparty :
    Env → Context → CounterpartyCommand → Role → String → Request → Request
unfolding linked_name
with_counterparty e ctx c role phone r =
    let approved =
      phone == ctx.conversation.phone
      && any (λ x. x.phone == ctx.conversation.phone && is_some x.approved_at) r.parties in
    let p = record (new_party e.now role phone approved) { name = linked_name ctx c phone } in
    let r' = invalidate_proposal (record r { parties = r.parties ++ p ∷ [] }) in
    record r' {
      items = if is_receiver role then map assume_working r.items else r.items;
      origin = direct;
      represents_both_parties = two_of_one_phone r'.parties || r.represents_both_parties;
    }

abbrev pub counterparty_linked : Failure
counterparty_linked =
    app_error "party_already_linked" 409
      "\u{5d4}\u{5e6}\u{5d3} \u{5d4}\u{5e9}\u{5e0}\u{5d9} \u{5db}\u{5d1}\u{5e8} \u{5de}\u{5e7}\u{5d5}\u{5e9}\u{5e8} \u{5dc}\u{5e4}\u{5e0}\u{5d9}\u{5d9}\u{5d4}. \u{5e9}\u{5d9}\u{5e0}\u{5d5}\u{5d9} \u{5d6}\u{5d4} \u{5d3}\u{5d5}\u{5e8}\u{5e9} \u{5d8}\u{5d9}\u{5e4}\u{5d5}\u{5dc} \u{5d0}\u{5e0}\u{5d5}\u{5e9}\u{5d9}."

-- An outcome of the command, or the request with which it goes on.
unfoldable pub link_counterparty :
    Env → Context → CounterpartyCommand → Request → Tx (Outcome ⊎ Request)
unfolding own_party name_counterparty supplied_phone with_counterparty
link_counterparty e ctx c r = do
  own ← lift (own_party r ctx.conversation.phone none)
  let role = other_role own.role
  elim (truthy c.phone) [
    | none ↦ (do o ← name_counterparty ctx c role r; pure (inl o))
    | some input ↦ do
      phone ← lift (supplied_phone ctx input)
      elim (find (λ p. same_role p.role role) r.parties) [
        | some p ↦
            if p.phone == phone
            then pure (
                inl (
                  output
                    "\u{5d4}\u{5e6}\u{5d3} \u{5d4}\u{5e9}\u{5e0}\u{5d9} \u{5db}\u{5d1}\u{5e8} \u{5de}\u{5e7}\u{5d5}\u{5e9}\u{5e8} \u{5dc}\u{5e4}\u{5e0}\u{5d9}\u{5d9}\u{5d4}."
                    none))
            else throw counterparty_linked
        | none ↦ do
          set_pending_name ctx.conversation.id none
          pure (inr (with_counterparty e ctx c role phone r))
      ]
  ]
