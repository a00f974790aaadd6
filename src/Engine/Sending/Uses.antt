-- ===== src/Engine/Sending/Uses.antt =====
-- src/application/engine.ts: how often a row of the outbox is delivered, counted in the calls that
-- run and in what WhatsApp took.
use zolo.Prelude.{
  ℕ, suc, ◌+◌, ◌≤◌, ◌<◌, Bool, false, List, [], ◌∷◌, ◌++◌, map, ◌≡◌, ◌≢◌, refl, sym, ap, ◌∙◌, subst,
  arith, Bool-cases, inl, inr, nat_eq, string_eq, ◌==◌, eq_sound, update, update_first, count, All,
  if◌then◌else◌,
}
use zolo.Store.Tables.{Outbound, SendState}
use zolo.Engine.Sending.{has_id, in_state}
use zolo.Engine.Sending.Claims.{Idle, Below}
use zolo.Engine.Sending.World.{Call, World}

abbrev pub of_call : ℕ → Call → Bool
of_call id c = c.id == id

abbrev pub is_id : ℕ → ℕ → Bool
is_id id i = i == id

-- The calls of a row that run, and the times that WhatsApp took it.
abbrev pub uses : World → ℕ → ℕ
uses w id = count (of_call id) w.calls + count (is_id id) w.taken

pub Idle-le :
    (f g : ℕ → ℕ) (rows : List Outbound)
    → ((j : ℕ) → g j ≤ f j)
    → All (Idle f) rows
    → All (Idle g) rows
Idle-le f g [] le h = tt
Idle-le f g (o ∷ os) le h =
    (λ k. let z = h.0 k in let l = le o.id in omega arith, Idle-le f g os le h.1)

-- A row may be opened again where nothing delivers it.
pub Idle-reopened :
    (f : ℕ → ℕ) (id : ℕ) (s : SendState) (rows : List Outbound)
    → f id ≡ 0
    → All (Idle f) rows
    → All (Idle f) (update (has_id id) (in_state s) rows)
Idle-reopened f id s [] zero_uses h = tt
Idle-reopened f id s (o ∷ os) zero_uses h = elim (Bool-cases (o.id == id)) [
  | inl hit ↦
      rw hit (λ k. ap f (eq_sound o.id id hit) ∙ zero_uses, Idle-reopened f id s os zero_uses h.1)
  | inr miss ↦ rw miss (h.0, Idle-reopened f id s os zero_uses h.1)
]

pub Below-reopened :
    (n id : ℕ) (s : SendState) (rows : List Outbound)
    → All (Below n) rows
    → All (Below n) (update (has_id id) (in_state s) rows)
Below-reopened n id s [] h = tt
Below-reopened n id s (o ∷ os) h = elim (Bool-cases (o.id == id)) [
  | inl hit ↦ rw hit (h.0, Below-reopened n id s os h.1)
  | inr miss ↦ rw miss (h.0, Below-reopened n id s os h.1)
]

pub All-update_first :
    (P : Outbound → Type 0) (p : Outbound → Bool) (f : Outbound → Outbound) (rows : List Outbound)
    → ((o : Outbound) → P o → P (f o))
    → All P rows
    → All P (update_first p f rows)
All-update_first P p f [] keep h = tt
All-update_first P p f (o ∷ os) keep h = elim (Bool-cases (p o)) [
  | inl hit ↦ rw hit (keep o h.0, h.1)
  | inr miss ↦ rw miss (h.0, All-update_first P p f os keep h.1)
]

pub All-weaken :
    (m n : ℕ) (ids : List ℕ) → m ≤ n → All (λ (i : ℕ). i < m) ids → All (λ (i : ℕ). i < n) ids
All-weaken m n [] le h = tt
All-weaken m n (i ∷ is) le h = (let k = h.0 in omega arith, All-weaken m n is le h.1)

pub calls-weaken :
    (m n : ℕ) (cs : List Call)
    → m ≤ n
    → All (λ (c : Call). c.id < m) cs
    → All (λ (c : Call). c.id < n) cs
calls-weaken m n [] le h = tt
calls-weaken m n (c ∷ cs) le h = (let k = h.0 in omega arith, calls-weaken m n cs le h.1)

pub rows-weaken : (m n : ℕ) (rows : List Outbound) → m ≤ n → All (Below m) rows → All (Below n) rows
rows-weaken m n [] le h = tt
rows-weaken m n (o ∷ os) le h = (let k = h.0 in omega arith, rows-weaken m n os le h.1)

-- An identifier that nothing bears has no deliveries.
pub calls_none :
    (n : ℕ) (cs : List Call) → All (λ (c : Call). c.id < n) cs → count (of_call n) cs ≡ 0
calls_none n [] h = refl
calls_none n (c ∷ cs) h = let k = h.0 in ground (arith, calls_none n cs h.1)

pub taken_none : (n : ℕ) (ids : List ℕ) → All (λ (i : ℕ). i < n) ids → count (is_id n) ids ≡ 0
taken_none n [] h = refl
taken_none n (i ∷ is) h = let k = h.0 in ground (arith, taken_none n is h.1)

pub test_of_ne : (a b : ℕ) → b ≢ a → (a == b) ≡ false
test_of_ne a b h = elim (Bool-cases (a == b)) [
  | inl same ↦ absurd (h (sym (eq_sound a b same)))
  | inr differs ↦ differs
]

pub used_once :
    (id : ℕ) (w : World)
    → uses w id ≡ 0
    → ((j : ℕ) → uses w j ≤ 1)
    → (j : ℕ)
    → (if id == j then suc (count (of_call j) w.calls) else count (of_call j) w.calls)
        + count (is_id j) w.taken
      ≤ 1
used_once id w unused once j = elim (Bool-cases (id == j)) [
  | inl same ↦
      let z = subst (λ i. uses w i ≡ 0) (eq_sound id j same) unused in rw same (omega (arith, z))
  | inr differs ↦ rw differs (once j)
]

pub All-without :
    (n : ℕ) (before behind : List Call) (c : Call)
    → All (λ (x : Call). x.id < n) (before ++ c ∷ behind)
    → All (λ (x : Call). x.id < n) (before ++ behind)
All-without n [] behind c h = h.1
All-without n (b ∷ bs) behind c h = (h.0, All-without n bs behind c h.1)

pub All-middle :
    (n : ℕ) (before behind : List Call) (c : Call)
    → All (λ (x : Call). x.id < n) (before ++ c ∷ behind)
    → c.id < n
All-middle n [] behind c h = h.0
All-middle n (b ∷ bs) behind c h = All-middle n bs behind c h.1

pub All-map :
    (P : Outbound → Type 0) (f : Outbound → Outbound) (rows : List Outbound)
    → ((o : Outbound) → P o → P (f o))
    → All P rows
    → All P (map f rows)
All-map P f [] keep h = tt
All-map P f (o ∷ os) keep h = (keep o h.0, All-map P f os keep h.1)

pub Idle-rest : (rows : List Outbound) → All (Idle (λ j. 0)) rows
Idle-rest [] = tt
Idle-rest (o ∷ os) = (λ k. refl, Idle-rest os)
