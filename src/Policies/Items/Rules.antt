-- ===== src/Policies/Items/Rules.antt =====
-- src/domain/policies.ts: which items `itemError` lets through.
use zolo.Prelude.{
  none_fits, is_false-not, All-map, ◌≤◌, Bool, true, false, ◌&&◌, Option, none, some, List, [], ◌∷◌,
  ◌≡◌, ◌≢◌, refl, ◌↔◌, arith, any, All, is_false,
}
use zolo.Domain.{Item}
use zolo.Policies.Items.{is_never_moved, needs_taking, total_quantity, item_error}

-- What the service carries: two things at most, none of a kind that it never moves, none that is
-- sold or out of order, and with a photograph no wardrobe that has to be taken apart.
pub record Carried (has_photo : Bool) (items : List Item) : Type 0 where
  pub kinds : All (λ i. is_never_moved i.kind ≡ false) items
  pub quantity : total_quantity items ≤ 2
  pub gifts : All (λ i. i.free ≢ some false) items
  pub working : All (λ i. i.working ≢ some false) items
  pub whole : has_photo ≡ true → All (λ i. needs_taking i ≡ false) items

All-any : {A : Type 0} (p : A → Bool) (xs : List A) → All (λ x. p x ≡ false) xs → any p xs ≡ false
All-any p [] h = refl
All-any p (x ∷ xs) h = ground (arith, h.0, All-any p xs h.1)

no-is_false : (o : Option Bool) → o ≢ some false → is_false o ≡ false
no-is_false none h = refl
no-is_false (some true) h = refl
no-is_false (some false) h = absurd (h refl)

carried : (photo : Bool) (items : List Item) → item_error items photo ≡ none → Carried photo items
unfolding item_error
carried photo items h = record {
  kinds = none_fits (λ i. is_never_moved i.kind) items (ground arith);
  quantity = ground arith;
  gifts =
      All-map _ _ items (λ i e. is_false-not i.free e)
        (none_fits (λ i. is_false i.free) items (ground arith));
  working =
      All-map _ _ items (λ i e. is_false-not i.working e)
        (none_fits (λ i. is_false i.working) items (ground arith));
  whole = λ p. none_fits needs_taking items (ground arith);
}

not_taken :
    (photo : Bool) (items : List Item)
    → Carried photo items
    → (photo && any needs_taking items) ≡ false
not_taken true items c = All-any needs_taking items (c.whole refl)
not_taken false items c = refl

-- itemError refuses nothing exactly when the items number two at most, none is of a kind that is
-- never moved, none is sold or out of order, and with a photograph none is a wardrobe that has to
-- be taken apart.
pub item_error-Carried :
    (photo : Bool) (items : List Item) → (item_error items photo ≡ none) ↔ Carried photo items
unfolding item_error
item_error-Carried photo items = (
  carried photo items,
  λ c. ground (
    arith,
    All-any (λ i. is_never_moved i.kind) items c.kinds,
    c.quantity,
    All-any (λ i. is_false i.free) items (All-map _ _ items (λ i h. no-is_false i.free h) c.gifts),
    All-any (λ i. is_false i.working) items
        (All-map _ _ items (λ i h. no-is_false i.working h) c.working),
    not_taken photo items c,
  ),
)
