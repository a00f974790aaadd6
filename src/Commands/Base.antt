-- ===== src/Commands/Base.antt =====
-- src/application/commands.ts: the helpers of `Commands.apply`, and what a command returns.
use zolo.Prelude.{
  ℕ, zero, suc, String, Bool, true, false, ◌&&◌, ◌||◌, not, Option, none, some, List, [], ◌∷◌, map,
  nat_eq, string_eq, option_eq, ◌==◌, ltb, if◌then◌else◌, or_else, find, filter, any, update,
  length, last?, Failure, app_error, Result, ok, err, ◌>>=◌, ◌>>◌, ensure, includes, keep_chars,
  is_digit, trim,
}
use zolo.Regex.{Regex, word, words, seqs, alt, plus, space, test}
use zolo.Domain.{
  Role, RequestStatus, coordinated, closed, cancelled, rejected, kind_text, ItemInput, Item, Party,
  Request, Context, Conversation, Notice,
}
use zolo.Policies.Calendar.{Now}
use zolo.Policies.Phone.{canonical_phone}
use zolo.Store.Tables.{Config, Tx, modify}

-- What a command reads of its surroundings: the settings, the clock, Unicode's normalisation and
-- the order of texts, which are the platform's.
pub record Env : Type 0 where
  pub config : Config
  pub now : Now
  pub nfkc : String → String
  pub before : String → String → Bool

pub record Outcome : Type 0 where
  pub reply : Option String
  pub request : Option Request
  pub notices : List Notice
  pub human_reason : Option String

-- `output(reply, request)`, and with notices.
abbrev pub output : String → Option Request → Outcome
output reply r = record { reply = some reply; request = r; notices = []; human_reason = none }

abbrev pub notify : List Notice → Outcome → Outcome
notify notices o = record o { notices = notices }

abbrev pub for_human : String → Outcome → Outcome
for_human reason o = record o { human_reason = some reason }

abbrev pub notice : String → String → Notice
notice phone text = record { phone = phone; text = text; media_id = none; match_id = none }

-- `party(role, phone, approved)`: its instant of approval is that of `new Date()`.
abbrev pub new_party : Now → Role → String → Bool → Party
new_party now role phone approved = record {
  role = role;
  phone = phone;
  name = none;
  settlement = none;
  address = none;
  floor = none;
  floor_note_shown = false;
  approved_at = if approved then some now.wall else none;
  approved_by = if approved then some phone else none;
  schedule_approved = false;
  schedule_approved_date = none;
  schedule_approved_at = none;
}

abbrev pub as_item : ItemInput → Item
as_item i = record {
  kind = i.kind;
  description = i.description;
  quantity = i.quantity;
  free = none;
  working = none;
  needs_disassembly = none;
  wardrobe_small_whole = none;
  oven_type = none;
  evacuation = none;
}

-- `ctx.message.transcript ?? ctx.message.text`
abbrev pub message_text : Context → String
message_text ctx = elim ctx.message.transcript [ some t ↦ t | none ↦ ctx.message.text ]

-- `ctx.history.at(-1)?.content ?? ""`
abbrev pub previous_text : Context → String
previous_text ctx = elim (last? ctx.history) [ none ↦ "" | some h ↦ h.content ]

abbrev only : List Request → Option Request
only [] = none
only (r ∷ []) = some r
only (_ ∷ _ ∷ _) = none

abbrev is_finished : RequestStatus → Bool
is_finished coordinated = true
is_finished closed = true
is_finished cancelled = true
is_finished rejected = true
is_finished _ = false

-- The request of the number in a command, where 0 counts as none.
abbrev explicit_request : Context → Option ℕ → Option Request
explicit_request ctx none = none
explicit_request ctx (some zero) = none
explicit_request ctx (some (suc n)) = find (λ r. r.number == suc n) ctx.requests

abbrev has_number : Option ℕ → Bool
has_number none = false
has_number (some zero) = false
has_number (some (suc _)) = true

-- The only request whose items the text names.
by_item : Context → Option ℕ → Option Request
unfolding includes trim
by_item ctx number =
    let text = trim (message_text ctx) in
    if not (has_number number) && ltb 1 (length ctx.requests)
    then only (
        filter
          (λ r. any (λ i. includes i.description text || includes (kind_text i.kind) text) r.items)
          ctx.requests)
    else none

choose_request : Context → Failure
choose_request ctx = app_error "choose_request" 409 (
    if ltb 0 (length ctx.requests)
    then "\u{5dc}\u{5d0}\u{5d9}\u{5d6}\u{5d5} \u{5e4}\u{5e0}\u{5d9}\u{5d9}\u{5d4} \u{5d4}\u{5ea}\u{5db}\u{5d5}\u{5d5}\u{5e0}\u{5ea}? \u{5e0}\u{5d0} \u{5dc}\u{5e6}\u{5d9}\u{5d9}\u{5df} \u{5de}\u{5e1}\u{5e4}\u{5e8} \u{5e4}\u{5e0}\u{5d9}\u{5d9}\u{5d4}."
    else "\u{5e0}\u{5d0} \u{5dc}\u{5e6}\u{5d9}\u{5d9}\u{5df} \u{5d0}\u{5dd} \u{5d1}\u{5e8}\u{5e6}\u{5d5}\u{5e0}\u{5da} \u{5dc}\u{5de}\u{5e1}\u{5d5}\u{5e8} \u{5e4}\u{5e8}\u{5d9}\u{5d8}, \u{5dc}\u{5e7}\u{5d1}\u{5dc} \u{5e4}\u{5e8}\u{5d9}\u{5d8} \u{5d0}\u{5d5} \u{5dc}\u{5ea}\u{5d0}\u{5dd} \u{5d4}\u{5d5}\u{5d1}\u{5dc}\u{5d4}.")

-- `target(ctx, number)`
unfoldable pub target : Context → Option ℕ → Result Request
unfolding by_item choose_request
target ctx number =
    elim (or_else (explicit_request ctx number) (
      or_else (by_item ctx number) (
        or_else (only (filter (λ r. not (is_finished r.status)) ctx.requests)) (
          or_else (find (λ r. some r.id == ctx.conversation.selected_request_id) ctx.requests)
            (only ctx.requests))))) [ some r ↦ ok r | none ↦ err (choose_request ctx) ]

-- "For myself", "to me", "I am both sides", "I am the donor and the receiver".
both_sides : Regex
both_sides =
    alt (words "\u{5dc}\u{5e2}\u{5e6}\u{5de}\u{5d9}" ("\u{5d0}\u{5dc}\u{5d9}\u{5d9}" ∷ [])) (
      seqs (
        word "\u{5d0}\u{5e0}\u{5d9}"
        ∷ plus space
        ∷ words "\u{5e9}\u{5e0}\u{5d9} \u{5d4}\u{5e6}\u{5d3}\u{5d3}\u{5d9}\u{5dd}" (
            "\u{5d2}\u{5dd} \u{5d4}\u{5de}\u{5d5}\u{5e1}\u{5e8} \u{5d5}\u{5d2}\u{5dd} \u{5d4}\u{5de}\u{5e7}\u{5d1}\u{5dc}"
            ∷ [])
        ∷ []))

abbrev pub phone_not_supplied : Failure
phone_not_supplied =
    app_error "phone_not_supplied" 403
      "\u{5e0}\u{5d0} \u{5dc}\u{5e9}\u{5dc}\u{5d5}\u{5d7} \u{5d0}\u{5ea} \u{5de}\u{5e1}\u{5e4}\u{5e8} \u{5d4}\u{5e6}\u{5d3} \u{5d4}\u{5e9}\u{5e0}\u{5d9} \u{5d0}\u{5d5} \u{5db}\u{5e8}\u{5d8}\u{5d9}\u{5e1} \u{5d0}\u{5d9}\u{5e9} \u{5e7}\u{5e9}\u{5e8}."

-- The customer gave the phone: as its own, in digits, or on a contact card.
unfoldable pub is_supplied : Context → String → Bool
unfolding both_sides test includes keep_chars
is_supplied ctx phone =
    phone == ctx.conversation.phone && test both_sides (message_text ctx)
    || includes phone (keep_chars is_digit (message_text ctx))
    || any (λ p. p.phone == phone) ctx.message.contacts

-- `suppliedPhone(ctx, input)`
unfoldable pub supplied_phone : Context → String → Result String
unfolding is_supplied
supplied_phone ctx input = do
  phone ← canonical_phone input
  ensure (is_supplied ctx phone) phone_not_supplied
  ok phone

-- The schedule approval of a party, withdrawn.
abbrev pub unschedule : Party → Party
unschedule p = record p {
  schedule_approved = false;
  schedule_approved_date = none;
  schedule_approved_at = none;
}

-- `invalidateProposal(request)`
abbrev pub invalidate_proposal : Request → Request
invalidate_proposal r = record r { proposed_run_date = none; parties = map unschedule r.parties }

-- `UPDATE conversations SET … WHERE id=$1`
abbrev pub update_conversation : ℕ → (Conversation → Conversation) → Tx (Unit {0})
update_conversation id f =
    modify (λ db. record db { conversations = update (λ c. c.id == id) f db.conversations })

abbrev pub select_request : ℕ → Option ℕ → Tx (Unit {0})
select_request id r = update_conversation id (λ c. record c { selected_request_id = r })

abbrev pub set_pending : ℕ → Option String → Option String → Tx (Unit {0})
set_pending id name phone = update_conversation id (λ c. record c {
  pending_counterparty_name = name;
  pending_counterparty_phone = phone;
  version = suc c.version;
})

abbrev pub set_pending_name : ℕ → Option String → Tx (Unit {0})
set_pending_name id name =
    update_conversation id
      (λ c. record c { pending_counterparty_name = name; version = suc c.version })
