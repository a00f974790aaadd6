-- ===== src/Policies/Readiness/Known.antt =====
-- src/domain/policies.ts: what a request that is ready has told the service.
use zolo.Prelude.{
  Bool-cases, is_some, Bool, true, false, not, ◌||◌, Option, none, some, ◌≡◌, ◌≢◌, ◌⊎◌, refl, arith,
  inl, inr, is_true, is_none, is_none-none, is_some-some, All,
}
use zolo.Domain.{
  ItemKind, Origin, donation, direct, is_direct, RequestStatus, collecting, available,
  awaiting_approval, waiting_capacity, Evacuation, different, wardrobe, oven, OvenType, Item, Party,
  Request,
}
use zolo.Policies.Items.{appliance, is_wardrobe, is_oven, item_error}
use zolo.Policies.Items.Rules.{Carried, item_error-Carried}
use zolo.Policies.Parties.Own.{Complete, filled-Filled}
use zolo.Policies.Readiness.{
  proposable_status, party_ready, item_ready, is_different, ready_to_propose_schedule,
}
use zolo.Policies.Readiness.Consent.{all-All}

-- What is known of an item that is moved.
pub record ItemKnown (r : Request) (i : Item) : Type 0 where
  pub gift : i.free ≡ some true
  pub works : i.working ≡ some true
  pub small : i.kind ≡ wardrobe → i.wardrobe_small_whole ≡ some true
  pub sort : i.kind ≡ oven → (t : OvenType) × (i.oven_type ≡ some t)
  pub handling :
      (r.origin ≡ direct)
      ⊎ (appliance i ≡ true)
      ⊎ (i.kind ≡ wardrobe)
      ⊎ (b : Bool) × (i.needs_disassembly ≡ some b)
  pub plain : i.evacuation ≢ some different

-- What is known of a request that may be moved.
pub record Movable (r : Request) : Type 0 where
  pub standing :
      (r.status ≡ collecting)
      ⊎ (r.status ≡ available)
      ⊎ (r.status ≡ awaiting_approval)
      ⊎ (r.status ≡ waiting_capacity)
  pub verified :
      (r.origin ≡ donation) ⊎ (r.represents_both_parties ≡ true) ⊎ (r.verification_contacted ≡ true)
  pub carried : Carried true r.items
  pub complete : All Complete r.parties
  pub items : All (ItemKnown r) r.items

standing_lem :
    (s : RequestStatus)
    → proposable_status s ≡ true
    → (s ≡ collecting) ⊎ (s ≡ available) ⊎ (s ≡ awaiting_approval) ⊎ (s ≡ waiting_capacity)
standing_lem collecting h = inl refl
standing_lem available h = inr (inl refl)
standing_lem awaiting_approval h = inr (inr (inl refl))
standing_lem waiting_capacity h = inr (inr (inr refl))
standing_lem _ h = absurd (cc)

verified_lem :
    (o : Origin) (both contacted : Bool)
    → (not (is_direct o) || both || contacted) ≡ true
    → (o ≡ donation) ⊎ (both ≡ true) ⊎ (contacted ≡ true)
verified_lem donation both contacted h = inl refl
verified_lem direct true contacted h = inr (inl refl)
verified_lem direct false contacted h = inr (inr h)

is_true_lem : (o : Option Bool) → is_true o ≡ true → o ≡ some true
is_true_lem none h = absurd (cc)
is_true_lem (some true) h = refl
is_true_lem (some false) h = absurd (cc)

direct_lem : (o : Origin) → is_direct o ≡ true → o ≡ direct
direct_lem direct h = refl
direct_lem donation h = absurd (cc)

wardrobe_lem : (k : ItemKind) → is_wardrobe k ≡ true → k ≡ wardrobe
wardrobe_lem wardrobe h = refl
wardrobe_lem _ h = absurd (cc)

handling_lem :
    (r : Request) (i : Item)
    → (is_direct r.origin || appliance i || is_wardrobe i.kind || is_some i.needs_disassembly)
      ≡ true
    → (r.origin ≡ direct)
      ⊎ (appliance i ≡ true)
      ⊎ (i.kind ≡ wardrobe)
      ⊎ (b : Bool) × (i.needs_disassembly ≡ some b)
handling_lem r i h = elim (Bool-cases (is_direct r.origin)) [
  | inl e ↦ inl (direct_lem r.origin e)
  | inr e ↦ elim (Bool-cases (appliance i)) [
    | inl e' ↦ inr (inl e')
    | inr e' ↦ elim (Bool-cases (is_wardrobe i.kind)) [
      | inl e'' ↦ inr (inr (inl (wardrobe_lem i.kind e'')))
      | inr e'' ↦ inr (inr (inr (is_some-some i.needs_disassembly (ground arith))))
    ]
  ]
]

plain_lem : (o : Option Evacuation) → is_different o ≡ false → o ≢ some different
plain_lem none h e = absurd (cc)
plain_lem (some different) h e = absurd (cc)
plain_lem (some _) h e = absurd (cc)

item_ready-ItemKnown : (r : Request) (i : Item) → item_ready r i ≡ true → ItemKnown r i
item_ready-ItemKnown r i h = record {
  gift = is_true_lem i.free (ground arith);
  works = is_true_lem i.working (ground arith);
  small = λ e.
      let is : is_wardrobe i.kind ≡ true = rw e refl in
      is_true_lem i.wardrobe_small_whole (ground arith);
  sort = λ e. let is : is_oven i.kind ≡ true = rw e refl in is_some-some i.oven_type (ground arith);
  handling = handling_lem r i (ground arith);
  plain = plain_lem i.evacuation (ground arith);
}

party_ready-Complete : (p : Party) → party_ready p ≡ true → Complete p
party_ready-Complete p h = (
  filled-Filled p.name (ground arith),
  filled-Filled p.settlement (ground arith),
  filled-Filled p.address (ground arith),
)

pub ready_to_propose_schedule-Movable :
    (r : Request) → ready_to_propose_schedule r ≡ true → Movable r
unfolding ready_to_propose_schedule
ready_to_propose_schedule-Movable r h =
    let carried : is_none (item_error r.items true) ≡ true = ground arith in
    record {
      standing = standing_lem r.status (ground arith);
      verified =
          verified_lem r.origin r.represents_both_parties r.verification_contacted (ground arith);
      carried =
          (item_error-Carried true r.items).0 (is_none-none (item_error r.items true) carried);
      complete = all-All Complete party_ready r.parties party_ready-Complete (ground arith);
      items = all-All (ItemKnown r) (item_ready r) r.items (item_ready-ItemKnown r) (ground arith);
    }
