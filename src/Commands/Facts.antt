-- ===== src/Commands/Facts.antt =====
-- src/application/commands.ts: the command `item_facts`, what the donor says of the items.
pub mod Confirmed
use zolo.Prelude.{
  ℕ, String, Bool, true, false, ◌&&◌, ◌||◌, not, Option, none, some, List, [], ◌∷◌, if◌then◌else◌,
  is_some, is_true, is_empty, or_else, ltb, any, ◌⊎◌, inl, inr, Failure, error, Result, ok, err,
  ◌>>=◌, ◌>>◌, ensure, includes,
}
use zolo.Regex.{Regex, words, test}
use zolo.Domain.{ItemInput, Item, donor, human, rejected, FactsCommand, Request, Context}
use zolo.Policies.Intents.{explicit_approval}
use zolo.Policies.Items.{is_wardrobe, is_oven, appliance, item_error, refusal_text, total_quantity}
use zolo.Policies.Parties.{own_party}
use zolo.Policies.Readiness.{is_different}
use zolo.Policies.Wording.{human_reply}
use zolo.Commands.Base.{
  Env, Outcome, output, for_human, as_item, message_text, previous_text, invalidate_proposal,
}

-- `{...asItem(i), ...(r.items[index] ?? {}), ...i}` for the items of the command.
unfoldable pub merged_items : List ItemInput → List Item → List Item
merged_items [] old = []
merged_items (i ∷ is) [] = as_item i ∷ merged_items is []
merged_items (i ∷ is) (o ∷ old) =
    record o { kind = i.kind; description = i.description; quantity = i.quantity }
    ∷ merged_items is old

-- "free", "working", and "out of order" in the customer's words.
unfoldable pub says_free : String → Bool
unfolding test
says_free text =
    test (words "\u{5d7}\u{5d9}\u{5e0}\u{5dd}" ("\u{5ea}\u{5e8}\u{5d5}\u{5de}\u{5d4}" ∷ [])) text

unfoldable pub says_working : String → Bool
unfolding test
says_working text =
    test
      (words "\u{5ea}\u{5e7}\u{5d9}\u{5e0}" (
        "\u{5ea}\u{5e7}\u{5d9}\u{5df}" ∷ "\u{5e2}\u{5d5}\u{5d1}\u{5d3}"
        ∷ "\u{5e9}\u{5de}\u{5d9}\u{5e9}" ∷ []))
      text

unfoldable pub says_broken : String → Bool
unfolding test
says_broken text =
    test
      (words "\u{5dc}\u{5d0} \u{5ea}\u{5e7}\u{5d9}\u{5df}" (
        "\u{5dc}\u{5d0} \u{5e2}\u{5d5}\u{5d1}\u{5d3}" ∷ "\u{5de}\u{5e7}\u{5d5}\u{5dc}\u{5e7}\u{5dc}"
        ∷ "\u{5e9}\u{5d1}\u{5d5}\u{5e8}" ∷ []))
      text

-- The customer said it, or consents to a question that named it.
unfoldable pub confirmed_free : Env → Context → Bool
unfolding says_free explicit_approval includes
confirmed_free e ctx =
    says_free (message_text ctx)
    || explicit_approval e.nfkc (message_text ctx)
      && includes "\u{5d1}\u{5d7}\u{5d9}\u{5e0}\u{5dd}" (previous_text ctx)

unfoldable pub confirmed_working : Env → Context → Bool
unfolding says_working explicit_approval includes
confirmed_working e ctx =
    says_working (message_text ctx)
    || explicit_approval e.nfkc (message_text ctx)
      && includes "\u{5ea}\u{5e7}\u{5d9}\u{5df}" (previous_text ctx)

abbrev disassembled : FactsCommand → Item → Item
disassembled c i =
    if is_wardrobe i.kind
    then record i {
      wardrobe_small_whole = or_else c.wardrobe_small_whole i.wardrobe_small_whole;
      needs_disassembly = or_else c.needs_disassembly i.needs_disassembly;
    }
    else if appliance i
    then record i { needs_disassembly = some false }
    else record i { needs_disassembly = or_else c.needs_disassembly i.needs_disassembly }

abbrev evacuated : FactsCommand → Item → Item
evacuated c i = record i {
  oven_type = if is_oven i.kind then or_else c.oven_type i.oven_type else i.oven_type;
  evacuation = or_else c.evacuation i.evacuation;
}

abbrev stated : FactsCommand → Bool → Item → Item
stated c broken i = record i {
  free = or_else c.free i.free;
  working = if broken then some false else or_else c.working i.working;
}

abbrev pub free_confirmation_missing : Failure
free_confirmation_missing = error "free_confirmation_missing"

abbrev pub working_confirmation_missing : Failure
working_confirmation_missing = error "working_confirmation_missing"

-- The body of the loop over the items.
unfoldable pub with_facts : Env → Context → FactsCommand → Item → Result Item
unfolding confirmed_free confirmed_working says_broken
with_facts e ctx c i = do
  ensure (not (is_true c.free) || confirmed_free e ctx) free_confirmation_missing
  ensure (not (is_true c.working) || confirmed_working e ctx) working_confirmation_missing
  ok (evacuated c (disassembled c (stated c (says_broken (message_text ctx)) i)))

unfoldable pub all_with_facts : Env → Context → FactsCommand → List Item → Result (List Item)
unfolding with_facts
all_with_facts e ctx c [] = ok []
all_with_facts e ctx c (i ∷ is) = do
  j ← with_facts e ctx c i
  js ← all_with_facts e ctx c is
  ok (j ∷ js)

abbrev chosen_items : FactsCommand → List Item → List Item
chosen_items c old =
    unfold merged_items in elim c.items [ none ↦ old | some is ↦ merged_items is old ]

-- What the checks behind the loop make of the request.
unfoldable pub judged : List Item → Request → Outcome ⊎ Request
unfolding item_error refusal_text
judged old r = elim (item_error r.items (not (is_empty r.photo_ids))) [
  | some why ↦ inl (
      output (refusal_text why) (
        some (record r {
          status = rejected;
          items = if ltb 2 (total_quantity r.items) then old else r.items;
        })))
  | none ↦
      if any (λ i. is_different i.evacuation) r.items
      then inl (
          for_human "evacuation" (
            output human_reply
              (some (record r { status = human; human_reason = some "evacuation" }))))
      else inr r
]

unfoldable pub facts_command : Env → Context → FactsCommand → Request → Result (Outcome ⊎ Request)
unfolding own_party merged_items all_with_facts judged
facts_command e ctx c r₀ = do
  let r = invalidate_proposal r₀
  _ ← own_party r ctx.conversation.phone (some donor)
  items ← all_with_facts e ctx c (chosen_items c r.items)
  ok (judged r.items (record r { items = items }))
