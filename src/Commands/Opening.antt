-- ===== src/Commands/Opening.antt =====
-- src/application/commands.ts: the commands that open a request, `donate` and
-- `receive_from_donor`.
use zolo.Prelude.{
  String, Bool, true, false, ◌&&◌, ◌||◌, not, Option, none, some, List, [], ◌∷◌, map, nat_eq,
  string_eq, option_eq, ◌==◌, if◌then◌else◌, is_some, is_none, is_false, is_true, or_else, find,
  filter, any, Failure, app_error, Result, ok, err, nonempty, filled, truthy, includes, keep_chars,
  is_space, template, join, show,
}
use zolo.Regex.{Regex, word, seqs, alt, plus, space, test}
use zolo.Domain.{
  ItemKind, other, kind_number, Role, donor, receiver, is_donor, other_role, Origin, donation,
  direct, DonateCommand, ReceiveCommand, Item, Party, Request, Context,
}
use zolo.Policies.Intents.{donation_intent}
use zolo.Policies.Items.{item_error, refusal_text}
use zolo.Policies.Parties.{protected_status}
use zolo.Policies.Questions.{next_question}
use zolo.Policies.Wording.{question_text}
use zolo.Store.Tables.{Db, Tx, pure, throw, lift, gets, ◌>>=◌, ◌>>◌}
use zolo.Store.Requests.{request, save, create}
use zolo.Commands.Base.{
  Env, Outcome, output, notify, notice, new_party, as_item, message_text, supplied_phone,
  select_request, set_pending, set_pending_name,
}

-- What the two commands have in common, read from either.
pub record Opening : Type 0 where
  pub is_donation : Bool
  pub items : List Item
  pub second_phone : Option String
  pub second_name : Option String
  pub is_direct : Bool

abbrev donated : DonateCommand → Bool → Item → Item
donated c handed_over i = record i {
  free = some (not (is_false c.free));
  working = if handed_over then or_else c.working (some true) else c.working;
}

abbrev pub of_donate : DonateCommand → Opening
of_donate c =
    let handed_over = filled c.counterparty_phone || is_true c.direct in
    record {
      is_donation = true;
      items = map (donated c handed_over) (map as_item c.items);
      second_phone = truthy c.counterparty_phone;
      second_name = c.counterparty_name;
      is_direct = handed_over;
    }

abbrev pub of_receive : ReceiveCommand → Opening
of_receive c = record {
  is_donation = false;
  items = map as_item c.items;
  second_phone = truthy c.donor_phone;
  second_name = none;
  is_direct = filled c.donor_phone;
}

abbrev pub opening_role : Bool → Role
opening_role true = donor
opening_role false = receiver

abbrev pub opening_origin : Opening → Origin
opening_origin o = if o.is_donation && not o.is_direct then donation else direct

-- The parties of the new request.
unfoldable pub opening_parties : Env → Context → Opening → Result (List Party)
unfolding supplied_phone
opening_parties e ctx o =
    let phone = ctx.conversation.phone in
    let role = opening_role o.is_donation in
    let first = new_party e.now role phone o.is_donation in
    elim o.second_phone [
      | none ↦ ok (first ∷ [])
      | some input ↦ elim (supplied_phone ctx input) [
        | err f ↦ err f
        | ok p ↦
            let second = new_party e.now (other_role role) p (p == phone && o.is_donation) in
            ok (
              first
              ∷ (if o.is_donation && filled o.second_name
                  then record second { name = o.second_name }
                  else second)
              ∷ [])
      ]
    ]

abbrev is_other : ItemKind → Bool
is_other other = true
is_other _ = false

-- The same thing: the same kind, and of things of no kind a description within the other's.
same_item : Item → Item → Bool
unfolding includes keep_chars is_space
same_item item next =
    let a = keep_chars (λ c. not (is_space c)) item.description in
    let b = keep_chars (λ c. not (is_space c)) next.description in
    kind_number item.kind == kind_number next.kind
    && (not (is_other item.kind)
        || nonempty a && nonempty b && (a == b || includes b a || includes a b))

same_items : List Item → List Item → Bool
unfolding same_item
same_items [] [] = true
same_items (i ∷ is) (j ∷ js) = same_item i j && same_items is js
same_items _ _ = false

abbrev is_donor_of : String → Request → Bool
is_donor_of phone r = any (λ p. is_donor p.role && p.phone == phone) r.parties

-- The open request of the donor for the same items, of those in the context.
known_duplicate : Context → List Item → Option Request
unfolding same_items
known_duplicate ctx items =
    find
      (λ r.
        not (protected_status r.status)
        && is_donor_of ctx.conversation.phone r
        && same_items r.items items)
      ctx.requests

-- The query for a request that the context lacks.
abbrev shares_item : List Item → Item → Bool
shares_item items i =
    any (λ j. kind_number j.kind == kind_number i.kind) items && not (is_other i.kind)
    || is_other i.kind && any (λ j. is_other j.kind && j.description == i.description) items

stored_duplicate : String → List Item → Db → Option Request
stored_duplicate phone items db =
    find
      (λ r.
        is_donor_of phone r && not (protected_status r.status) && any (shares_item items) r.items)
      db.requests

unfoldable pub duplicate : Context → List Item → Tx (Option Request)
unfolding known_duplicate stored_duplicate request
duplicate ctx items = elim (known_duplicate ctx items) [
  | some r ↦ pure (some r)
  | none ↦ do
    found ← gets (stored_duplicate ctx.conversation.phone items)
    elim found [ none ↦ pure none | some r ↦ do current ← request r.id; pure (some current) ]
]

-- "A new request", "an additional item", "another item".
another : Regex
another =
    alt
      (seqs (
        word "\u{5e4}\u{5e0}\u{5d9}\u{5d9}\u{5d4}"
        ∷ plus space
        ∷ word "\u{5d7}\u{5d3}\u{5e9}\u{5d4}"
        ∷ []))
      (alt
        (seqs (
          word "\u{5e4}\u{5e8}\u{5d9}\u{5d8}"
          ∷ plus space
          ∷ word "\u{5e0}\u{5d5}\u{5e1}\u{5e3}"
          ∷ []))
        (seqs
          (word "\u{5e2}\u{5d5}\u{5d3}" ∷ plus space ∷ word "\u{5e4}\u{5e8}\u{5d9}\u{5d8}" ∷ [])))

unfoldable pub asks_for_another : String → Bool
unfolding another test
asks_for_another text = test another text

unfoldable pub duplicate_text : Request → String
unfolding show
duplicate_text r = template (
    "\u{5db}\u{5d1}\u{5e8} \u{5e7}\u{5d9}\u{5d9}\u{5de}\u{5ea} \u{5e4}\u{5e0}\u{5d9}\u{5d9}\u{5d4} "
    ∷ show r.number
    ∷ " \u{5e2}\u{5d1}\u{5d5}\u{5e8} \u{5e4}\u{5e8}\u{5d9}\u{5d8} \u{5d3}\u{5d5}\u{5de}\u{5d4}. \u{5d0}\u{5dd} \u{5d6}\u{5d5} \u{5e4}\u{5e0}\u{5d9}\u{5d9}\u{5d4} \u{5d7}\u{5d3}\u{5e9}\u{5d4} \u{5d0}\u{5d5} \u{5e4}\u{5e8}\u{5d9}\u{5d8} \u{5e0}\u{5d5}\u{5e1}\u{5e3}, \u{5db}\u{5ea}\u{5d5}\u{5d1} \u{5d6}\u{5d0}\u{5ea} \u{5d1}\u{5de}\u{5e4}\u{5d5}\u{5e8}\u{5e9}."
    ∷ [])

opened_text : Request → Party → String
unfolding show
opened_text r p = template (
    "\u{5e0}\u{5e4}\u{5ea}\u{5d7}\u{5d4} \u{5e4}\u{5e0}\u{5d9}\u{5d9}\u{5d4} "
    ∷ show r.number
    ∷ " \u{5dc}\u{5d2}\u{5d1}\u{5d9} "
    ∷ join ", " (map (λ i. i.description) r.items)
    ∷ ". \u{5e0}\u{5d0} \u{5dc}\u{5d0}\u{5e9}\u{5e8} \u{5d0}\u{5ea} \u{5d7}\u{5dc}\u{5e7}\u{5da} \u{5d1}"
    ∷ (if is_donor p.role
        then "\u{5de}\u{5e1}\u{5d9}\u{5e8}\u{5d4}"
        else "\u{5e7}\u{5d1}\u{5dc}\u{5d4}")
    ∷ ". \u{5d4}\u{5d4}\u{5d5}\u{5d1}\u{5dc}\u{5d5}\u{5ea} \u{5d1}\u{5d9}\u{5de}\u{5d9} \u{5e9}\u{5dc}\u{5d9}\u{5e9}\u{5d9} 16:00–20:00, \u{5d5}\u{5d1}\u{5d3}\u{5e8}\u{5da} \u{5db}\u{5dc}\u{5dc} \u{5e2}\u{5d3} 10 \u{5d4}\u{5d5}\u{5d1}\u{5dc}\u{5d5}\u{5ea} \u{5d1}\u{5db}\u{5dc} \u{5d9}\u{5d5}\u{5dd} \u{5e9}\u{5dc}\u{5d9}\u{5e9}\u{5d9}. \u{5de}\u{5e2}\u{5d1}\u{5e8} \u{5dc}\u{5db}\u{5da} \u{5e0}\u{5d1}\u{5e7}\u{5e9} \u{5ea}\u{5d7}\u{5d9}\u{5dc}\u{5d4} \u{5d0}\u{5d9}\u{5e9}\u{5d5}\u{5e8} \u{5de}\u{5e0}\u{5d4}\u{5dc}. \u{5e0}\u{5e2}\u{5d3}\u{5db}\u{5df}."
    ∷ [])

abbrev same_phones : List Party → Bool
same_phones (p ∷ q ∷ []) = p.phone == q.phone
same_phones _ = false

-- The writes of a new request, and the reply.
unfoldable pub open_request : Env → Context → Opening → List Party → Tx Outcome
unfolding create save next_question question_text opened_text
open_request e ctx o parties = do
  let phone = ctx.conversation.phone
  made ← create e.now o.items parties (opening_origin o)
  r ←
      if same_phones parties
      then save (record made { represents_both_parties = true })
      else pure made
  select_request ctx.conversation.id (some r.id)
  if is_none o.second_phone && o.is_donation && filled o.second_name
      then set_pending_name ctx.conversation.id o.second_name
      else pure tt
  if is_some o.second_phone then set_pending ctx.conversation.id none none else pure tt
  asked ← lift (next_question r phone)
  pure (
      notify
        (map (λ p. notice p.phone (opened_text r p))
          (filter (λ p. not (p.phone == phone) && not o.is_direct) parties))
        (output (question_text e.before asked.question) (some r)))

abbrev pub donor_intent_required : Failure
donor_intent_required =
    app_error "donor_intent_required" 400
      "\u{5d4}\u{5d0}\u{5dd} \u{5d1}\u{5e8}\u{5e6}\u{5d5}\u{5e0}\u{5da} \u{5dc}\u{5de}\u{5e1}\u{5d5}\u{5e8} \u{5d0}\u{5ea} \u{5d4}\u{5e4}\u{5e8}\u{5d9}\u{5d8} \u{5d1}\u{5d7}\u{5d9}\u{5e0}\u{5dd}?"

unfoldable pub open_command : Env → Context → Opening → Tx Outcome
unfolding donation_intent item_error refusal_text opening_parties duplicate asks_for_another
    duplicate_text open_request
open_command e ctx o =
    if o.is_donation && not (donation_intent (message_text ctx)) && not o.is_direct
    then throw donor_intent_required
    else elim (item_error o.items false) [
      | some why ↦ pure (output (refusal_text why) none)
      | none ↦ do
        parties ← lift (opening_parties e ctx o)
        known ← duplicate ctx o.items
        elim known [
          | none ↦ open_request e ctx o parties
          | some r ↦
              if asks_for_another (message_text ctx)
              then open_request e ctx o parties
              else pure (output (duplicate_text r) (some r))
        ]
    ]
