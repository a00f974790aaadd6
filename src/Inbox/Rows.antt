-- ===== src/Inbox/Rows.antt =====
-- src/application/engine.ts: what holds of the rows of messages, and which updates keep it.
use zolo.Prelude.{
  ℕ, ◌≤◌, ◌<◌, String, ◌≡◌, ◌≢◌, refl, sym, ◌∙◌, subst, Bool, true, false, not, ◌&&◌, ◌⊎◌, inl, inr,
  none, some, List, [], ◌∷◌, ◌++◌, nat_eq, string_eq, option_eq, ◌==◌, arith, All, any, update,
  find, length, is_empty, Bool-cases, some_injective, eq_iff, All-append, and_left, and_right,
  and_both, eq_sound, eq_complete,
}
use zolo.Inbox.{Row, Ending, coalesced_into, has_id}

-- The message that took another one's text: later, and of the same customer.
abbrev pub is_successor : ℕ → String → Row → Bool
is_successor id phone q = q.id == id && q.phone == some phone

pub no_endings : (es : List Ending) → not (is_empty es) ≡ false → es ≡ []
no_endings [] h = refl
no_endings (_ ∷ _) h = absurd (grind arith)

-- A row and the rows behind it.
pub record RowSound (r : Row) (behind : List Row) : Type 0 where
  pub one_id : All (λ (q : Row). (q.id == r.id) ≡ false) behind
  pub one_external : All (λ (q : Row). (q.external_id == r.external_id) ≡ false) behind
  pub ended_once : length r.endings ≤ 1
  pub onward :
      (id : ℕ)
      → r.endings ≡ coalesced_into id ∷ []
      → (phone : String) × (r.phone ≡ some phone) × (any (is_successor id phone) behind ≡ true)

abbrev pub AllSound : List Row → Type 0
AllSound [] = Unit {0}
AllSound (r ∷ rows) = RowSound r rows × AllSound rows

-- A row that stands for the same message.
pub record Like (r s : Row) : Type 0 where
  pub id : s.id ≡ r.id
  pub external : s.external_id ≡ r.external_id
  pub phone : (p : String) → r.phone ≡ some p → s.phone ≡ some p

pub data AllLike : List Row → List Row → Type 0 where
  none_like : AllLike [] []
  like :
      {r s : Row} {rows others : List Row}
      → Like r s
      → AllLike rows others
      → AllLike (r ∷ rows) (s ∷ others)

pub Like-refl : (r : Row) → Like r r
Like-refl r = record { id = refl; external = refl; phone = λ p e. e }

pub AllLike-update :
    (p : Row → Bool) (f : Row → Row)
    → ((r : Row) → Like r (f r))
    → (rows : List Row) → AllLike rows (update p f rows)
AllLike-update p f k [] = none_like
AllLike-update p f k (r ∷ rows) = elim (Bool-cases (p r)) [
  | inl e ↦ rw e (like (k r) (AllLike-update p f k rows))
  | inr e ↦ rw e (like (Like-refl r) (AllLike-update p f k rows))
]

is_successor-Like :
    (id : ℕ) (phone : String) (r s : Row)
    → Like r s
    → is_successor id phone r ≡ true
    → is_successor id phone s ≡ true
is_successor-Like id phone r s k h =
    let of = eq_sound r.phone (some phone) (and_right (r.id == id) _ h) in
    and_both (s.id == id) (s.phone == some phone) (rw k.id (and_left (r.id == id) _ h))
      (eq_complete s.phone (some phone) (k.phone phone of))

pub any-like :
    (id : ℕ) (phone : String) {rows others : List Row}
    → AllLike rows others
    → any (is_successor id phone) rows ≡ true
    → any (is_successor id phone) others ≡ true
any-like id phone none_like h = h
any-like id phone (like {r} {s} k ks) h =
    ground (arith, is_successor-Like id phone r s k, any-like id phone ks)

pub ids-like :
    (id : ℕ) {rows others : List Row}
    → AllLike rows others
    → All (λ (q : Row). (q.id == id) ≡ false) rows
    → All (λ (q : Row). (q.id == id) ≡ false) others
ids-like id none_like h = tt
ids-like id (like k ks) (h, hs) = (rw k.id h, ids-like id ks hs)

externals-like :
    (e : String) {rows others : List Row}
    → AllLike rows others
    → All (λ (q : Row). (q.external_id == e) ≡ false) rows
    → All (λ (q : Row). (q.external_id == e) ≡ false) others
externals-like e none_like h = tt
externals-like e (like k ks) (h, hs) = (rw k.external h, externals-like e ks hs)

pub below-like :
    (n : ℕ) {rows others : List Row}
    → AllLike rows others
    → All (λ (q : Row). q.id < n) rows
    → All (λ (q : Row). q.id < n) others
below-like n none_like h = tt
below-like n (like k ks) (h, hs) = (rw k.id h, below-like n ks hs)

-- A row, when the rows behind it are written.
pub RowSound-like :
    (r : Row) {rows others : List Row} → AllLike rows others → RowSound r rows → RowSound r others
RowSound-like r ks h = record {
  one_id = ids-like r.id ks h.one_id;
  one_external = externals-like r.external_id ks h.one_external;
  ended_once = h.ended_once;
  onward =
      λ id e. let (phone, of, there) = h.onward id e in (phone, of, any-like id phone ks there);
}

-- An end other than in another message.
abbrev pub IsFinal : Ending → Type 0
IsFinal why = (id : ℕ) → why ≢ coalesced_into id

-- A write that ends no message twice, and none in another message.
pub record Kept (r s : Row) : Type 0 where
  pub same : Like r s
  pub endings :
      (s.endings ≡ r.endings)
      ⊎ ((r.endings ≡ []) × (why : Ending) × (s.endings ≡ why ∷ []) × IsFinal why)

pub data AllKept : List Row → List Row → Type 0 where
  none_left : AllKept [] []
  kept :
      {r s : Row} {rows others : List Row}
      → Kept r s
      → AllKept rows others
      → AllKept (r ∷ rows) (s ∷ others)

pub AllKept-like : {rows others : List Row} → AllKept rows others → AllLike rows others
AllKept-like none_left = none_like
AllKept-like (kept k ks) = like k.same (AllKept-like ks)

pub Kept-refl : (r : Row) → Kept r r
Kept-refl r = record { same = Like-refl r; endings = inl refl }

pub AllKept-refl : (rows : List Row) → AllKept rows rows
AllKept-refl [] = none_left
AllKept-refl (r ∷ rows) = kept (Kept-refl r) (AllKept-refl rows)

-- An update that keeps the rows it changes.
pub AllKept-update :
    (p : Row → Bool) (f : Row → Row) (rows : List Row)
    → All (λ r. p r ≡ true → Kept r (f r)) rows
    → AllKept rows (update p f rows)
AllKept-update p f [] h = none_left
AllKept-update p f (r ∷ rows) (k, ks) = elim (Bool-cases (p r)) [
  | inl e ↦ rw e (kept (k e) (AllKept-update p f rows ks))
  | inr e ↦ rw e (kept (Kept-refl r) (AllKept-update p f rows ks))
]

RowSound-Kept :
    (r s : Row) (rows others : List Row)
    → Kept r s
    → AllLike rows others
    → RowSound r rows
    → RowSound s others
RowSound-Kept r s rows others k ks h = record {
  one_id = rw k.same.id (ids-like r.id ks h.one_id);
  one_external = rw k.same.external (externals-like r.external_id ks h.one_external);
  ended_once = elim k.endings [
    | inl e ↦ rw e h.ended_once
    | inr (_, why, e, _) ↦ rw e (omega arith)
  ];
  onward = λ id e. elim k.endings [
    | inl same ↦
        let (phone, of, there) = h.onward id (sym same ∙ e) in
        (phone, k.same.phone phone of, any-like id phone ks there)
    | inr (_, why, e', final) ↦ absurd (final id (cc (e, e')))
  ];
}

pub AllSound-kept : {rows others : List Row} → AllKept rows others → AllSound rows → AllSound others
AllSound-kept none_left h = tt
AllSound-kept (kept k ks) (h, hs) =
    (RowSound-Kept _ _ _ _ k (AllKept-like ks) h, AllSound-kept ks hs)

-- The row of an identifier is written, and no other row has that identifier.
pub AllKept-found :
    (id : ℕ) (f : Row → Row) (rows : List Row) (r : Row)
    → AllSound rows
    → find (has_id id) rows ≡ some r
    → Kept r (f r)
    → AllKept rows (update (has_id id) f rows)
AllKept-found id f [] r h e k = absurd (grind arith)
AllKept-found id f (q ∷ rows) r (h, hs) e k = elim (Bool-cases (has_id id q)) [
  | inl t ↦
      let same : q ≡ r = some_injective (rw t at e) in
      rw t (
        kept (subst (λ x. Kept x (f x)) (sym same) k)
          (AllKept-update (has_id id) f rows (none_with q id rows (eq_sound q.id id t) h.one_id)))
  | inr t ↦ rw t (kept (Kept-refl q) (AllKept-found id f rows r hs (rw t at e) k))
]
  where
    none_with :
        (q : Row) (id : ℕ) (rows : List Row)
        → q.id ≡ id
        → All (λ (x : Row). (x.id == q.id) ≡ false) rows
        → All (λ (x : Row). has_id id x ≡ true → Kept x (f x)) rows
    none_with q id [] same h = tt
    none_with q id (x ∷ rows) same (h, hs) =
        ((λ t. absurd (grind arith)), none_with q id rows same hs)

any-front :
    (p : Row → Bool) (rows others : List Row) → any p rows ≡ true → any p (rows ++ others) ≡ true
any-front p [] others h = absurd (grind arith)
any-front p (r ∷ rows) others h = ground (arith, any-front p rows others)

-- A new row behind the others.
module _ (r : Row) (fresh : r.endings ≡ []) where
  RowSound-append :
      (q : Row) (rows : List Row)
      → q.id < r.id
      → (q.external_id == r.external_id) ≡ false
      → RowSound q rows
      → RowSound q (rows ++ r ∷ [])
  RowSound-append q rows low other h = record {
    one_id = All-append (λ x. (x.id == q.id) ≡ false) rows (r ∷ []) h.one_id (ground arith, tt);
    one_external =
        All-append (λ x. (x.external_id == q.external_id) ≡ false) rows (r ∷ []) h.one_external
          (
            ground (arith, eq_iff q.external_id r.external_id, eq_iff r.external_id q.external_id),
            tt,
          );
    ended_once = h.ended_once;
    onward = λ id e.
        let (phone, of, there) = h.onward id e in
        (phone, of, any-front (is_successor id phone) rows (r ∷ []) there);
  }

  pub AllSound-append :
      (rows : List Row)
      → All (λ (q : Row). q.id < r.id) rows
      → find (λ (q : Row). q.external_id == r.external_id) rows ≡ none
      → AllSound rows
      → AllSound (rows ++ r ∷ [])
  AllSound-append [] low new h = (
    record {
      one_id = tt;
      one_external = tt;
      ended_once = rw fresh (omega arith);
      onward = λ id e. absurd (cc (fresh, e));
    },
    tt,
  )
  AllSound-append (q ∷ rows) (l, ls) new (h, hs) =
      elim (Bool-cases (q.external_id == r.external_id)) [
        | inl e ↦ absurd (grind arith)
        | inr e ↦ (RowSound-append q rows l e h, AllSound-append rows ls (rw e at new) hs)
      ]
