-- ===== src/Commands/Facts/Confirmed.antt =====
-- src/application/commands.ts: the facts that `item_facts` takes only on the customer's word.
use zolo.Prelude.{
  Bool, true, false, ◌||◌, not, Option, none, some, List, [], ◌∷◌, ◌≡◌, subst, arith, ok,
  ok_injective, Bool-cases, Result-cases, inl, inr, is_true, ◌⊎◌, String, ◌&&◌, and_left, and_right,
  includes, or_else, sym, ◌∙◌, if◌then◌else◌,
}
use zolo.Domain.{FactsCommand, Item, Context}
use zolo.Policies.Intents.{explicit_approval}
use zolo.Commands.Base.{Env, message_text, previous_text}
use zolo.Commands.Facts.{
  stated, disassembled, evacuated, confirmed_free, confirmed_working, says_broken, says_free,
  says_working, with_facts, all_with_facts,
}

-- The customer wrote it, or consents to a question of the service that named it.
abbrev pub Worded : Env → Context → Bool → String → Type 0
Worded e ctx said name =
    (said ≡ true)
    ⊎ ((explicit_approval e.nfkc (message_text ctx) ≡ true)
        × (includes name (previous_text ctx) ≡ true))

-- What becomes of an item: it is free, or working, only when it already was or the customer's
-- word says so, and what the customer calls broken is not working.
pub record Grounded (e : Env) (ctx : Context) (i j : Item) : Type 0 where
  pub free :
      j.free ≡ some true
      → (i.free ≡ some true)
        ⊎ Worded e ctx (says_free (message_text ctx)) "\u{5d1}\u{5d7}\u{5d9}\u{5e0}\u{5dd}"
  pub working :
      j.working ≡ some true
      → (i.working ≡ some true)
        ⊎ Worded e ctx (says_working (message_text ctx)) "\u{5ea}\u{5e7}\u{5d9}\u{5df}"
  pub broken : says_broken (message_text ctx) ≡ true → j.working ≡ some false

-- Item by item.
abbrev pub AllGrounded : Env → Context → List Item → List Item → Type 0
AllGrounded e ctx [] [] = Unit {0}
AllGrounded e ctx (i ∷ is) (j ∷ js) = Grounded e ctx i j × AllGrounded e ctx is js
AllGrounded e ctx _ _ = ⊥

worded_lem :
    (e : Env) (ctx : Context) (said : Bool) (name : String)
    → (said || (explicit_approval e.nfkc (message_text ctx) && includes name (previous_text ctx)))
      ≡ true
    → Worded e ctx said name
worded_lem e ctx said name h = elim (Bool-cases said) [
  | inl there ↦ inl there
  | inr silent ↦
      let asked : (explicit_approval e.nfkc (message_text ctx) && includes name (previous_text ctx))
          ≡ true =
        rw silent at h in
      inr (
        and_left (explicit_approval e.nfkc (message_text ctx)) (includes name (previous_text ctx))
            asked,
        and_right (explicit_approval e.nfkc (message_text ctx)) (includes name (previous_text ctx))
            asked,
      )
]

confirmed_free-Worded :
    (e : Env) (ctx : Context)
    → confirmed_free e ctx ≡ true
    → Worded e ctx (says_free (message_text ctx)) "\u{5d1}\u{5d7}\u{5d9}\u{5e0}\u{5dd}"
unfolding confirmed_free
confirmed_free-Worded e ctx h =
    worded_lem e ctx (says_free (message_text ctx)) "\u{5d1}\u{5d7}\u{5d9}\u{5e0}\u{5dd}" h

confirmed_working-Worded :
    (e : Env) (ctx : Context)
    → confirmed_working e ctx ≡ true
    → Worded e ctx (says_working (message_text ctx)) "\u{5ea}\u{5e7}\u{5d9}\u{5df}"
unfolding confirmed_working
confirmed_working-Worded e ctx h =
    worded_lem e ctx (says_working (message_text ctx)) "\u{5ea}\u{5e7}\u{5d9}\u{5df}" h

-- A value taken from the command needs the word of the customer, the old one does not.
worded_value :
    (now old : Option Bool) (b : Bool) {P : Type 0}
    → (not (is_true now) || b) ≡ true
    → (b ≡ true → P)
    → or_else now old ≡ some true
    → (old ≡ some true) ⊎ P
worded_value none old b h f k = inl k
worded_value (some true) old b h f k = inr (f h)
worded_value (some false) old b h f k = absurd (cc)

kept_free : (c : FactsCommand) (i : Item) → (evacuated c (disassembled c i)).free ≡ i.free
kept_free c i = ground arith

unbroken : (b : Bool) (o : Option Bool) → (if b then some false else o) ≡ some true → o ≡ some true
unbroken true o h = absurd (cc)
unbroken false o h = h

kept_working : (c : FactsCommand) (i : Item) → (evacuated c (disassembled c i)).working ≡ i.working
kept_working c i = ground arith

broken_item :
    (c : FactsCommand) (b : Bool) (i : Item)
    → b ≡ true
    → (evacuated c (disassembled c (stated c b i))).working ≡ some false
broken_item c b i h = rw h (kept_working c (stated c true i))

stated_lem :
    (e : Env) (ctx : Context) (c : FactsCommand) (i : Item)
    → (not (is_true c.free) || confirmed_free e ctx) ≡ true
    → (not (is_true c.working) || confirmed_working e ctx) ≡ true
    → Grounded e ctx i (evacuated c (disassembled c (stated c (says_broken (message_text ctx)) i)))
stated_lem e ctx c i free works =
    let broken = says_broken (message_text ctx) in
    record {
      free = λ h.
          worded_value c.free i.free (confirmed_free e ctx) free (confirmed_free-Worded e ctx)
            (sym (kept_free c (stated c broken i)) ∙ h);
      working = λ h.
          worded_value c.working i.working (confirmed_working e ctx) works
            (confirmed_working-Worded e ctx)
            (unbroken broken (or_else c.working i.working)
              (sym (kept_working c (stated c broken i)) ∙ h));
      broken = λ b. broken_item c broken i b;
    }

with_facts-Grounded :
    (e : Env) (ctx : Context) (c : FactsCommand) (i j : Item)
    → with_facts e ctx c i ≡ ok j
    → Grounded e ctx i j
unfolding with_facts
with_facts-Grounded e ctx c i j h =
    elim (Bool-cases (not (is_true c.free) || confirmed_free e ctx)) [
      | inr no_word ↦ absurd (let k = rw (no_word, with_facts) at h in cc)
      | inl free ↦ elim (Bool-cases (not (is_true c.working) || confirmed_working e ctx)) [
        | inr no_word ↦ absurd (let k = rw (free, no_word, with_facts) at h in cc)
        | inl works ↦
            subst (Grounded e ctx i) (ok_injective (rw (free, works, with_facts) at h))
              (stated_lem e ctx c i free works)
      ]
    ]

-- An item that item_facts leaves as free, or as working, was so before, or the customer's message
-- says so, or the customer consents explicitly and the message of the service before it named it;
-- and what the customer calls broken is left as not working.
pub all_with_facts-Grounded :
    (e : Env) (ctx : Context) (c : FactsCommand) (is js : List Item)
    → all_with_facts e ctx c is ≡ ok js
    → AllGrounded e ctx is js
unfolding all_with_facts
all_with_facts-Grounded e ctx c [] js h = subst (AllGrounded e ctx []) (ok_injective h) tt
all_with_facts-Grounded e ctx c (i ∷ is) js h = elim (Result-cases (with_facts e ctx c i)) [
  | inr (f, bad) ↦ absurd (let k = rw (bad, all_with_facts) at h in cc)
  | inl (j, one) ↦ elim (Result-cases (all_with_facts e ctx c is)) [
    | inr (f, bad) ↦ absurd (let k = rw (one, bad, all_with_facts) at h in cc)
    | inl (ks, rest) ↦
        subst (AllGrounded e ctx (i ∷ is)) (ok_injective (rw (one, rest, all_with_facts) at h))
          (with_facts-Grounded e ctx c i j one, all_with_facts-Grounded e ctx c is ks rest)
  ]
]
