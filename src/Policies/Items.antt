-- ===== src/Policies/Items.antt =====
-- src/domain/policies.ts: `itemError` and `appliance`.
pub mod Rules
use zolo.Prelude.{
  ℕ, ◌+◌, String, Bool, true, false, ◌&&◌, ◌||◌, Option, none, some, List, [], ◌∷◌, any, ltb,
  if◌then◌else◌, is_true, is_false,
}
use zolo.Domain.{
  ItemKind, fridge, oven, washing_machine, dryer, freezer, dishwasher, wardrobe, piano, house_move,
  Item,
}

abbrev pub is_wardrobe : ItemKind → Bool
is_wardrobe wardrobe = true
is_wardrobe _ = false

abbrev pub is_oven : ItemKind → Bool
is_oven oven = true
is_oven _ = false

-- The kinds that the service never moves.
abbrev pub is_never_moved : ItemKind → Bool
is_never_moved piano = true
is_never_moved house_move = true
is_never_moved _ = false

abbrev is_appliance : ItemKind → Bool
is_appliance fridge = true
is_appliance oven = true
is_appliance washing_machine = true
is_appliance dryer = true
is_appliance freezer = true
is_appliance dishwasher = true
is_appliance _ = false

abbrev pub appliance : Item → Bool
appliance i = is_appliance i.kind

-- `items.reduce((n, i) => n + i.quantity, 0)`
abbrev pub total_quantity : List Item → ℕ
total_quantity [] = 0
total_quantity (i ∷ items) = i.quantity + total_quantity items

-- The reasons to refuse the items, in the order in which they are tested.
pub data ItemRefusal : Type 0 where
  never_moved too_many not_free not_working needs_taking_apart : ItemRefusal

abbrev pub needs_taking : Item → Bool
needs_taking i =
    is_wardrobe i.kind && (is_true i.needs_disassembly || is_false i.wardrobe_small_whole)

unfoldable pub item_error : List Item → Bool → Option ItemRefusal
item_error items has_photo =
    if any (λ i. is_never_moved i.kind) items
    then some never_moved
    else if ltb 2 (total_quantity items)
    then some too_many
    else if any (λ i. is_false i.free) items
    then some not_free
    else if any (λ i. is_false i.working) items
    then some not_working
    else if has_photo && any needs_taking items
    then some needs_taking_apart
    else none

-- The text of a refusal.
unfoldable pub refusal_text : ItemRefusal → String
refusal_text never_moved =
    "\u{5dc}\u{5d0} \u{5e0}\u{5d9}\u{5ea}\u{5df} \u{5dc}\u{5e1}\u{5d9}\u{5d9}\u{5e2} \u{5d1}\u{5d4}\u{5d5}\u{5d1}\u{5dc}\u{5ea} \u{5e4}\u{5e1}\u{5e0}\u{5ea}\u{5e8}\u{5d9}\u{5dd} \u{5d0}\u{5d5} \u{5d1}\u{5d4}\u{5d5}\u{5d1}\u{5dc}\u{5d5}\u{5ea} \u{5d3}\u{5d9}\u{5e8}\u{5d4}."
refusal_text too_many =
    "\u{5e0}\u{5d9}\u{5ea}\u{5df} \u{5dc}\u{5e1}\u{5d9}\u{5d9}\u{5e2} \u{5d1}\u{5d4}\u{5d5}\u{5d1}\u{5dc}\u{5ea} \u{5e2}\u{5d3} \u{5e9}\u{5e0}\u{5d9} \u{5e4}\u{5e8}\u{5d9}\u{5d8}\u{5d9}\u{5dd}. \u{5e9}\u{5d5}\u{5dc}\u{5d7}\u{5df} \u{5d5}\u{5db}\u{5d9}\u{5e1}\u{5d0}\u{5d5}\u{5ea} \u{5e0}\u{5d7}\u{5e9}\u{5d1}\u{5d9}\u{5dd} \u{5e4}\u{5e8}\u{5d9}\u{5d8} \u{5d0}\u{5d7}\u{5d3}."
refusal_text not_free =
    "\u{5d4}\u{5ea}\u{5d5}\u{5db}\u{5e0}\u{5d9}\u{5ea} \u{5de}\u{5e1}\u{5d9}\u{5d9}\u{5e2}\u{5ea} \u{5d1}\u{5de}\u{5e1}\u{5d9}\u{5e8}\u{5d4} \u{5d1}\u{5d7}\u{5d9}\u{5e0}\u{5dd} \u{5d1}\u{5dc}\u{5d1}\u{5d3}."
refusal_text not_working =
    "\u{5e0}\u{5d9}\u{5ea}\u{5df} \u{5dc}\u{5de}\u{5e1}\u{5d5}\u{5e8} \u{5e8}\u{5e7} \u{5e6}\u{5d9}\u{5d5}\u{5d3} \u{5ea}\u{5e7}\u{5d9}\u{5df} \u{5d5}\u{5e9}\u{5de}\u{5d9}\u{5e9} \u{5d1}\u{5be}100%."
refusal_text needs_taking_apart =
    "\u{5d0}\u{5d9}\u{5df} \u{5d0}\u{5e6}\u{5dc}\u{5e0}\u{5d5} \u{5e4}\u{5d9}\u{5e8}\u{5d5}\u{5e7} \u{5d5}\u{5d4}\u{5e8}\u{5db}\u{5d1}\u{5d4} \u{5e9}\u{5dc} \u{5d0}\u{5e8}\u{5d5}\u{5e0}\u{5d5}\u{5ea}. \u{5d0}\u{5e4}\u{5e9}\u{5e8} \u{5dc}\u{5d4}\u{5e2}\u{5d1}\u{5d9}\u{5e8} \u{5e8}\u{5e7} \u{5d0}\u{5e8}\u{5d5}\u{5df} \u{5e7}\u{5d8}\u{5df} \u{5e9}\u{5e0}\u{5d9}\u{5ea}\u{5df} \u{5dc}\u{5d4}\u{5e2}\u{5d1}\u{5d9}\u{5e8} \u{5e9}\u{5dc}\u{5dd}."
