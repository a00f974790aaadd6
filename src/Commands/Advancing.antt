-- ===== src/Commands/Advancing.antt =====
-- src/application/commands.ts: the command `next`, `escalate` and `clarify_duplicate`, and what
-- every command that goes on ends with: the next question.
use zolo.Prelude.{
  ℕ, suc, String, Bool, true, false, ◌&&◌, not, Option, none, some, List, [], ◌∷◌, map, nat_eq,
  string_eq, ◌==◌, if◌then◌else◌, any, filter, last?, is_empty, head?, update_first, Result, ok,
  err, nonempty, filled, truthy, text_of, includes, text_take, text_drop, template, trim, show,
}
use zolo.Regex.{
  Regex, Match, start, word, words, word_i, alt, seq, seqs, opt, star, plus, space, one_of, finish,
  ahead, hebrew_letter, digit_char, times, up_to, test, exec, match_all,
}
use zolo.Domain.{
  donor, is_donor, is_receiver, donation, available, human, EscalateReason, borderline_area, Party,
  Request, Context,
}
use zolo.Policies.Intents.{norm, donation_intent, ambiguous_street_city}
use zolo.Policies.Phone.{canonical_phone}
use zolo.Policies.Places.{mentioned_allowed_settlement}
use zolo.Policies.Parties.{own_test, own_party}
use zolo.Policies.Questions.{Asked, next_question}
use zolo.Policies.Wording.{human_reply, question_text}
use zolo.Store.Tables.{Tx, pure, lift, ◌>>=◌, ◌>>◌}
use zolo.Store.Requests.{request, create}
use zolo.Commands.Base.{
  Env, Outcome, output, for_human, new_party, message_text, previous_text, select_request,
  set_pending_name, update_conversation, target,
}
use zolo.Commands.Cancelling.{reason_text}

-- The reply is the next question, and a note about the floor counts as shown.
unfoldable pub show_floor_note : Request → String → Request
unfolding own_test
show_floor_note r phone = record r {
  parties =
      update_first (own_test r phone none) (λ p. record p { floor_note_shown = true }) r.parties;
}

unfoldable pub answer : Env → String → Asked → Request → Outcome
unfolding show_floor_note question_text
answer e phone asked r =
    output (question_text e.before asked.question)
      (some (if asked.floor_note then show_floor_note r phone else r))

-- `q.text.slice(0, 24)` stands in the previous reply.
unfoldable pub is_repeated : Env → Context → Asked → Bool
unfolding question_text text_take includes
is_repeated e ctx asked =
    let opening = text_take 24 (question_text e.before asked.question) in
    nonempty (previous_text ctx) && nonempty opening && includes opening (previous_text ctx)

abbrev only_party : List Party → Bool
only_party (_ ∷ []) = true
only_party _ = false

-- A donation with photographs and no second party waits for a receiver.
abbrev pub offered : Request → Request
offered r =
    if only_party r.parties && not (is_empty r.photo_ids)
    then record r { status = available }
    else r

-- The end of `apply`; of `details` and `item_facts` a question is not asked twice over.
unfoldable pub conclude : Env → Context → Bool → Request → Tx Outcome
unfolding next_question is_repeated answer
conclude e ctx tells r₀ = do
  let r = offered r₀
  let phone = ctx.conversation.phone
  asked ← lift (next_question r phone)
  if tells && is_repeated e ctx asked
      then (do
        again ← lift (next_question (record r { verification_contacted = true }) phone)
        pure (answer e phone again r))
      else pure (answer e phone asked r)

-- "no number", "no receiver", "no".
abbrev no_number : Regex
no_number = words "\u{5d0}\u{5d9}\u{5df} \u{5dc}\u{5d9} \u{5de}\u{5e1}\u{5e4}\u{5e8}" (
    "\u{5d0}\u{5d9}\u{5df} \u{5de}\u{5e1}\u{5e4}\u{5e8}"
    ∷ "\u{5d0}\u{5d9}\u{5df} \u{5de}\u{5e7}\u{5d1}\u{5dc}" ∷ "\u{5dc}\u{5d0}" ∷ [])

abbrev no_receiver : Regex
no_receiver = seq start (
    alt (word "\u{5dc}\u{5d0}") (
      alt
        (seqs (
          word "\u{5d0}\u{5d9}\u{5df}"
          ∷ opt (word " \u{5dc}\u{5d9}")
          ∷ opt (word " \u{5de}\u{5e7}\u{5d1}\u{5dc}")
          ∷ []))
        (word "\u{5d0}\u{5d9}\u{5df} \u{5de}\u{5e7}\u{5d1}\u{5dc}")))

unfoldable pub says_no_number : String → Bool
unfolding test trim
says_no_number text = test no_number (trim text)

unfoldable pub says_no_receiver : String → Bool
unfolding test trim
says_no_receiver text = test no_receiver (trim text)

unfoldable pub asked_receiver : String → Bool
unfolding test
asked_receiver previous =
    test (word "\u{5de}\u{5e7}\u{5d1}\u{5dc} \u{5de}\u{5e1}\u{5d5}\u{5d9}\u{5dd}") previous

abbrev seeks_receiver : Request → Party → Bool
seeks_receiver r p = is_donor p.role && not (any (λ q. is_receiver q.role) r.parties)

-- `next` on a request.
unfoldable pub next_command : Env → Context → Request → Tx Outcome
unfolding own_party ambiguous_street_city says_no_number says_no_receiver asked_receiver
    next_question answer
next_command e ctx r = do
  let phone = ctx.conversation.phone
  let said = message_text ctx
  speaker ← lift (own_party r phone none)
  if ambiguous_street_city e.nfkc said && not (filled speaker.address)
      then pure (
          output
            "\u{5d4}\u{5d0}\u{5dd} \u{5d4}\u{5db}\u{5d5}\u{5d5}\u{5e0}\u{5d4} \u{5dc}\u{5e8}\u{5d7}\u{5d5}\u{5d1} \u{5d0}\u{5d9}\u{5dc}\u{5ea}, \u{5d0}\u{5d5} \u{5dc}\u{5d9}\u{5d9}\u{5e9}\u{5d5}\u{5d1} \u{5d0}\u{5d9}\u{5dc}\u{5ea} \u{5e9}\u{5de}\u{5d7}\u{5d5}\u{5e5} \u{5dc}\u{5d0}\u{5d6}\u{5d5}\u{5e8} \u{5d4}\u{5e4}\u{5e2}\u{5d9}\u{5dc}\u{5d5}\u{5ea}?"
            (some r))
      else if seeks_receiver r speaker
          && filled ctx.conversation.pending_counterparty_name
          && says_no_number said
      then (do
        set_pending_name ctx.conversation.id none
        pure (
            output
              "\u{5d0}\u{5d9}\u{5df} \u{5d1}\u{5e2}\u{5d9}\u{5d4}. \u{5e0}\u{5de}\u{5e9}\u{5d9}\u{5da} \u{5d0}\u{5ea} \u{5d4}\u{5de}\u{5e1}\u{5d9}\u{5e8}\u{5d4} \u{5d5}\u{5e0}\u{5e0}\u{5e1}\u{5d4} \u{5dc}\u{5de}\u{5e6}\u{5d5}\u{5d0} \u{5de}\u{5e7}\u{5d1}\u{5dc} \u{5de}\u{5ea}\u{5d0}\u{5d9}\u{5dd}."
              (some r)))
      else if seeks_receiver r speaker
          && asked_receiver (previous_text ctx)
          && says_no_receiver said
      then pure (
          output
            "\u{5d4}\u{5e4}\u{5e8}\u{5d8}\u{5d9}\u{5dd} \u{5e0}\u{5e9}\u{5de}\u{5e8}\u{5d5}. \u{5e0}\u{5e0}\u{5e1}\u{5d4} \u{5dc}\u{5de}\u{5e6}\u{5d5}\u{5d0} \u{5de}\u{5e7}\u{5d1}\u{5dc} \u{5de}\u{5ea}\u{5d0}\u{5d9}\u{5dd} \u{5d5}\u{5e0}\u{5e2}\u{5d3}\u{5db}\u{5df}."
            (some r))
      else (do asked ← lift (next_question r phone); pure (answer e phone asked r))

-- A word of two letters or more behind the letter for "to".
abbrev handoff : Regex
handoff = seqs (
    alt start space
    ∷ word "\u{5dc}"
    ∷ hebrew_letter
    ∷ plus hebrew_letter
    ∷ ahead (alt finish (alt space (one_of ",.;!?")))
    ∷ [])

abbrev handed_to : Match → String
handed_to m =
    unfold text_drop test in
    if test (seq start (word "\u{5dc}")) m.here then text_drop 1 m.here else text_drop 2 m.here

-- Words that name nobody.
abbrev no_names : List String
no_names =
    "\u{5de}\u{5e1}\u{5d9}\u{5e8}\u{5d4}" ∷ "\u{5ea}\u{5e8}\u{5d5}\u{5de}\u{5d4}"
    ∷ "\u{5de}\u{5d9}\u{5e9}\u{5d4}\u{5d5}" ∷ "\u{5de}\u{5d9}\u{5e9}\u{5d4}\u{5d9}"
    ∷ "\u{5d0}\u{5d3}\u{5dd}" ∷ "\u{5d1}\u{5d9}\u{5ea}" ∷ "\u{5e2}\u{5e4}\u{5d5}\u{5dc}\u{5d4}"
    ∷ "\u{5e6}\u{5de}\u{5d7}" ∷ "\u{5e7}\u{5e8}\u{5e7}\u{5e2}" ∷ "\u{5de}\u{5e1}\u{5d5}\u{5e8}"
    ∷ "\u{5de}\u{5e1}\u{5d5}\u{5e8}\u{5d4}" ∷ "\u{5d4}\u{5e2}\u{5d1}\u{5d9}\u{5e8}"
    ∷ "\u{5d4}\u{5e2}\u{5d1}\u{5d9}\u{5e8}\u{5d4}" ∷ "\u{5e7}\u{5d1}\u{5dc}"
    ∷ "\u{5e7}\u{5d1}\u{5dc}\u{5ea}" ∷ "\u{5ea}\u{5ea}" ∷ "\u{5ea}\u{5e8}\u{5d5}\u{5dd}" ∷ []

unfoldable pub handoff_name : (String → String) → String → Option String
unfolding norm match_all text_drop test
handoff_name nfkc said = last? (
    filter (λ name. not (any (λ w. w == name) no_names))
      (map handed_to (match_all handoff (norm nfkc said))))

abbrev written_phone : Regex
written_phone =
    let middle = alt digit_char (alt space (one_of "().-")) in
    seqs (
      opt (alt (seq (opt (word "+")) (word "972")) (word "0"))
      ∷ digit_char
      ∷ times 7 middle
      ∷ up_to 7 middle
      ∷ digit_char
      ∷ [])

abbrev accepted : Result String → Option String
accepted (ok phone) = some phone
accepted (err _) = none

-- The phone of the contact card, or the one in the text.
unfoldable pub given_phone : Context → Option String
unfolding exec canonical_phone
given_phone ctx = elim (head? ctx.message.contacts) [
  | some x ↦ some x.phone
  | none ↦ elim (exec written_phone (message_text ctx)) [
    | none ↦ none
    | some m ↦ accepted (canonical_phone m.here)
  ]
]

abbrev near : Regex
near = words "\u{5dc}\u{5d9}\u{5d3}" (
    "\u{5e7}\u{5e8}\u{5d5}\u{5d1}" ∷ "\u{5d1}\u{5d0}\u{5d6}\u{5d5}\u{5e8}"
    ∷ "\u{5e1}\u{5de}\u{5d5}\u{5da}" ∷ [])

abbrev beit_shean_name : Regex
beit_shean_name =
    alt (seqs (word "\u{5d1}\u{5d9}\u{5ea}" ∷ star space ∷ word "\u{5e9}\u{5d0}\u{5df}" ∷ []))
      (seqs (word_i "beit" ∷ plus space ∷ word_i "she" ∷ opt (word "'") ∷ word_i "an" ∷ []))

unfoldable pub near_beit_shean : Env → String → Bool
unfolding norm test
near_beit_shean e said = test near (norm e.nfkc said) && test beit_shean_name said

-- `next` of a customer without requests, behind the questions about the place.
unfoldable pub next_named : Env → Context → Tx Outcome
unfolding donation_intent handoff_name given_phone
next_named e ctx =
    let id = ctx.conversation.id in
    let name = handoff_name e.nfkc (message_text ctx) in
    if donation_intent (message_text ctx) && filled name
    then (do
      set_pending_name id name
      pure (
          output
            (template (
              "\u{5e8}\u{5e9}\u{5de}\u{5ea}\u{5d9} \u{5e9}\u{5de}\u{5d3}\u{5d5}\u{5d1}\u{5e8} \u{5d1}\u{5de}\u{5e1}\u{5d9}\u{5e8}\u{5d4} \u{5dc}"
              ∷ text_of name
              ∷ ". \u{5de}\u{5d4} \u{5d4}\u{5e4}\u{5e8}\u{5d9}\u{5d8} \u{5e9}\u{5d1}\u{5e8}\u{5e6}\u{5d5}\u{5e0}\u{5da} \u{5dc}\u{5de}\u{5e1}\u{5d5}\u{5e8}?"
              ∷ []))
            none))
    else elim (truthy ctx.conversation.pending_counterparty_name) [
      | none ↦ pure (
          output
            "\u{5d0}\u{5d9}\u{5da} \u{5d0}\u{5e4}\u{5e9}\u{5e8} \u{5dc}\u{5e2}\u{5d6}\u{5d5}\u{5e8} — \u{5dc}\u{5de}\u{5e1}\u{5d5}\u{5e8} \u{5e4}\u{5e8}\u{5d9}\u{5d8}, \u{5dc}\u{5e7}\u{5d1}\u{5dc} \u{5e4}\u{5e8}\u{5d9}\u{5d8} \u{5d0}\u{5d5} \u{5dc}\u{5ea}\u{5d0}\u{5dd} \u{5d4}\u{5d5}\u{5d1}\u{5dc}\u{5d4}?"
            none)
      | some who ↦ elim (truthy (given_phone ctx)) [
        | none ↦ pure (
            output
              (template (
                "\u{5de}\u{5d4} \u{5d4}\u{5e4}\u{5e8}\u{5d9}\u{5d8} \u{5e9}\u{5d1}\u{5e8}\u{5e6}\u{5d5}\u{5e0}\u{5da} \u{5dc}\u{5de}\u{5e1}\u{5d5}\u{5e8} \u{5dc}"
                ∷ who ∷ "?" ∷ []))
              none)
        | some phone ↦ do
          update_conversation id
              (λ c. record c { pending_counterparty_phone = some phone; version = suc c.version })
          pure (
              output
                (template (
                  "\u{5e8}\u{5e9}\u{5de}\u{5ea}\u{5d9} \u{5d0}\u{5ea} \u{5de}\u{5e1}\u{5e4}\u{5e8} \u{5d4}\u{5d8}\u{5dc}\u{5e4}\u{5d5}\u{5df} \u{5e9}\u{5dc} "
                  ∷ who
                  ∷ ". \u{5de}\u{5d4} \u{5d4}\u{5e4}\u{5e8}\u{5d9}\u{5d8} \u{5e9}\u{5d1}\u{5e8}\u{5e6}\u{5d5}\u{5e0}\u{5da} \u{5dc}\u{5de}\u{5e1}\u{5d5}\u{5e8}?"
                  ∷ []))
                none)
      ]
    ]

unfoldable pub next_without_request : Env → Context → Tx Outcome
unfolding mentioned_allowed_settlement donation_intent near_beit_shean next_named
next_without_request e ctx =
    let said = message_text ctx in
    let town = mentioned_allowed_settlement e.nfkc said in
    if filled town && not (donation_intent said)
    then pure (
        output
          (template (
            "\u{5e8}\u{5e9}\u{5de}\u{5ea}\u{5d9} \u{5d0}\u{5ea} \u{5d4}\u{5d9}\u{5d9}\u{5e9}\u{5d5}\u{5d1} "
            ∷ text_of town
            ∷ ". \u{5de}\u{5d4} \u{5ea}\u{5e8}\u{5e6}\u{5d4} \u{5dc}\u{5de}\u{5e1}\u{5d5}\u{5e8} \u{5d0}\u{5d5} \u{5dc}\u{5e7}\u{5d1}\u{5dc}?"
            ∷ []))
          none)
    else if near_beit_shean e said
    then pure (
        output
          "\u{5d1}\u{5d0}\u{5d9}\u{5d6}\u{5d4} \u{5d9}\u{5d9}\u{5e9}\u{5d5}\u{5d1} \u{5d1}\u{5d3}\u{5d9}\u{5d5}\u{5e7}? \u{5d0}\u{5e0}\u{5d7}\u{5e0}\u{5d5} \u{5e4}\u{5d5}\u{5e2}\u{5dc}\u{5d9}\u{5dd} \u{5d1}\u{5d1}\u{5d9}\u{5ea} \u{5e9}\u{5d0}\u{5df}, \u{5de}\u{5e1}\u{5d9}\u{5dc}\u{5d5}\u{5ea}, \u{5d9}\u{5e8}\u{5d3}\u{5e0}\u{5d4}, \u{5d1}\u{5d9}\u{5ea} \u{5d0}\u{5dc}\u{5e4}\u{5d0}, \u{5d8}\u{5d9}\u{5e8}\u{5ea} \u{5e6}\u{5d1}\u{5d9}, \u{5db}\u{5e4}\u{5e8} \u{5e8}\u{5d5}\u{5e4}\u{5d9}\u{5df} \u{5d5}\u{5de}\u{5d7}\u{5d5}\u{5dc}\u{5d4}."
          none)
    else next_named e ctx

-- `escalate` of a customer without requests: a doubtful place opens one for the staff.
unfoldable pub escalate_without_request : Env → Context → EscalateReason → Tx Outcome
unfolding create
escalate_without_request e ctx borderline_area = do
  r ← create e.now [] (new_party e.now donor ctx.conversation.phone false ∷ []) donation
  select_request ctx.conversation.id (some r.id)
  pure (
      for_human "borderline_area" (
        output human_reply
          (some (record r { status = human; human_reason = some "borderline_area" }))))
escalate_without_request e ctx reason =
    pure (for_human (reason_text reason) (output human_reply none))

unfoldable pub clarify_command : Context → ℕ → Tx Outcome
unfolding target request own_party show
clarify_command ctx number = do
  stale ← lift (target ctx (some number))
  r ← request stale.id
  _ ← lift (own_party r ctx.conversation.phone none)
  pure (
      output
        (template (
          "\u{5db}\u{5d1}\u{5e8} \u{5e7}\u{5d9}\u{5d9}\u{5de}\u{5ea} \u{5e4}\u{5e0}\u{5d9}\u{5d9}\u{5d4} "
          ∷ show r.number
          ∷ " \u{5e2}\u{5d1}\u{5d5}\u{5e8} \u{5e4}\u{5e8}\u{5d9}\u{5d8} \u{5d3}\u{5d5}\u{5de}\u{5d4}. \u{5d0}\u{5dd} \u{5d6}\u{5d5} \u{5e4}\u{5e0}\u{5d9}\u{5d9}\u{5d4} \u{5d7}\u{5d3}\u{5e9}\u{5d4} \u{5d0}\u{5d5} \u{5e4}\u{5e8}\u{5d9}\u{5d8} \u{5e0}\u{5d5}\u{5e1}\u{5e3}, \u{5db}\u{5ea}\u{5d5}\u{5d1} \u{5d6}\u{5d0}\u{5ea} \u{5d1}\u{5de}\u{5e4}\u{5d5}\u{5e8}\u{5e9}."
          ∷ []))
        (some r))
