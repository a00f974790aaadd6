-- ===== src/Inbox/Merging.antt =====
-- src/application/engine.ts: the messages that `processNext` joins into one.
use zolo.Prelude.{
  ℕ, String, ◌≡◌, refl, sym, subst, Bool, true, false, not, some, List, [], ◌∷◌, ◌++◌, nat_eq,
  string_eq, option_eq, ◌==◌, arith, All, any, filter, update, inl, inr, Bool-cases, and_left,
  and_right, eq_sound,
}
use zolo.Inbox.{Row, Ending, coalesced_into, has_id}
use zolo.Inbox.Turns.{waits_for, but_last, last_row, same_ids, ended, in_rows}
use zolo.Inbox.Rows.{
  is_successor, RowSound, AllSound, Like, AllLike-update, RowSound-like, no_endings,
}

-- The last of the waiting messages is one of the customer.
last-successor :
    (phone : String) (rows : List Row) (first : Row) (rest : List Row)
    → same_ids (filter (waits_for phone) rows) (first ∷ rest) ≡ true
    → any (is_successor (last_row first rest).id phone) rows ≡ true
last-successor phone [] first rest h = absurd (grind arith)
last-successor phone (r ∷ rows) first [] h = elim (Bool-cases (waits_for phone r)) [
  | inr e ↦ ground (arith, last-successor phone rows first [] (rw e at h))
  | inl e ↦ ground (arith, and_left (r.phone == some phone) _ e, rw e at h)
]
last-successor phone (r ∷ rows) first (s ∷ others) h = elim (Bool-cases (waits_for phone r)) [
  | inr e ↦ ground (arith, last-successor phone rows first (s ∷ others) (rw e at h))
  | inl e ↦
      ground
        (arith, last-successor phone rows s others (and_right (r.id == first.id) _ (rw e at h)))
]

-- No row of an identifier that the waiting messages do not have.
absent :
    (phone : String) (id : ℕ) (rows snapshot : List Row)
    → All (λ (q : Row). (q.id == id) ≡ false) rows
    → same_ids (filter (waits_for phone) rows) snapshot ≡ true
    → any (has_id id) snapshot ≡ false
absent phone id [] [] h e = refl
absent phone id [] (s ∷ snapshot) h e = absurd (grind arith)
absent phone id (r ∷ rows) [] (h, hs) e = refl
absent phone id (r ∷ rows) (s ∷ snapshot) (h, hs) e = elim (Bool-cases (waits_for phone r)) [
  | inr f ↦ absent phone id rows (s ∷ snapshot) hs (rw f at e)
  | inl f ↦
      let k = rw f at e in
      ground (
        arith,
        eq_sound r.id s.id (and_left (r.id == s.id) _ k),
        absent phone id rows snapshot hs (and_right (r.id == s.id) _ k),
      )
]

but_last-absent :
    (id : ℕ) (rows : List Row)
    → any (has_id id) rows ≡ false
    → any (has_id id) (but_last rows) ≡ false
but_last-absent id [] h = refl
but_last-absent id (r ∷ []) h = refl
but_last-absent id (r ∷ s ∷ rows) h = ground (arith, but_last-absent id (s ∷ rows))

not-true : (b : Bool) → not b ≡ true → b ≡ false
not-true b h = ground arith

-- Rows that a test leaves out are not written.
update_none :
    (p : Row → Bool) (f : Row → Row) (rows : List Row)
    → All (λ r. p r ≡ false) rows
    → update p f rows ≡ rows
update_none p f [] h = refl
update_none p f (r ∷ rows) (h, hs) = rw (h, update_none p f rows hs) refl

nothing_in : (rows : List Row) → All (λ r. in_rows [] r ≡ false) rows
nothing_in [] = tt
nothing_in (r ∷ rows) = (refl, nothing_in rows)

-- A row that was passed is not found again.
update_behind :
    (s : Row) (others : List Row) (f : Row → Row) (rows : List Row)
    → All (λ (q : Row). (q.id == s.id) ≡ false) rows
    → update (in_rows (s ∷ others)) f rows ≡ update (in_rows others) f rows
update_behind s others f [] h = refl
update_behind s others f (q ∷ rows) (h, hs) = rw (update_behind s others f rows hs) (ground arith)

pub ended-Like : (why : Ending) (r : Row) → Like r (ended why r)
ended-Like why r = record { id = refl; external = refl; phone = λ p e. e }

open_row : (phone : String) (r : Row) → waits_for phone r ≡ true → r.endings ≡ []
open_row phone r e = no_endings r.endings (not-true _ (and_right (r.phone == some phone) _ e))

RowSound-ended :
    (phone : String) (id : ℕ) (r : Row) (rows : List Row)
    → waits_for phone r ≡ true
    → any (is_successor id phone) rows ≡ true
    → RowSound r rows
    → RowSound (ended (coalesced_into id) r) rows
RowSound-ended phone id r rows e there h = record {
  one_id = h.one_id;
  one_external = h.one_external;
  ended_once = rw (open_row phone r e) (omega arith);
  onward = λ id' e'. (
    phone,
    eq_sound r.phone (some phone) (and_left (r.phone == some phone) _ e),
    subst (λ i. any (is_successor i phone) rows ≡ true)
        (named r.endings (open_row phone r e) id' e') there,
  );
}
  where
    named :
        (es : List Ending)
        → es ≡ []
        → (id' : ℕ) → (es ++ coalesced_into id ∷ []) ≡ coalesced_into id' ∷ []
        → id ≡ id'
    named [] none_yet id' e' = cc
    named (_ ∷ _) none_yet id' e' = absurd (grind arith)

pub coalesced-AllSound :
    (phone : String) (rows : List Row) (first : Row) (rest : List Row)
    → same_ids (filter (waits_for phone) rows) (first ∷ rest) ≡ true
    → AllSound rows
    → AllSound (
        update
          (in_rows (but_last (first ∷ rest)))
          (ended (coalesced_into (last_row first rest).id))
          rows)
coalesced-AllSound phone [] first rest e h = tt
coalesced-AllSound phone (r ∷ rows) first [] e h =
    subst AllSound
      (sym (
        update_none (in_rows []) (ended (coalesced_into first.id)) (r ∷ rows)
          (nothing_in (r ∷ rows))))
      h
coalesced-AllSound phone (r ∷ rows) first (s ∷ others) e (h, hs) =
    elim (Bool-cases (waits_for phone r)) [
      | inr f ↦
          let k = rw f at e in
          let out : in_rows (but_last (first ∷ s ∷ others)) r ≡ false =
            but_last-absent r.id (first ∷ s ∷ others)
              (absent phone r.id rows (first ∷ s ∷ others) h.one_id k) in
          rw out (
            RowSound-like r
                (AllLike-update (in_rows (but_last (first ∷ s ∷ others))) _ (ended-Like _) rows) h,
            coalesced-AllSound phone rows first (s ∷ others) k hs,
          )
      | inl f ↦
          let k = rw f at e in
          let same = eq_sound r.id first.id (and_left (r.id == first.id) _ k) in
          let behind = and_right (r.id == first.id) _ k in
          let others_only =
            update_behind first (but_last (s ∷ others))
              (ended (coalesced_into (last_row s others).id)) rows
              (subst (λ i. All (λ (q : Row). (q.id == i) ≡ false) rows) same h.one_id) in
          let found : in_rows (but_last (first ∷ s ∷ others)) r ≡ true = ground arith in
          rw (found, others_only)
            (
              RowSound-like _
                  (AllLike-update (in_rows (but_last (s ∷ others))) _ (ended-Like _) rows)
                  (RowSound-ended phone _ r rows f (last-successor phone rows s others behind) h),
              coalesced-AllSound phone rows s others behind hs,
            )
    ]
