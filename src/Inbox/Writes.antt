-- ===== src/Inbox/Writes.antt =====
-- src/application/engine.ts and src/infrastructure/store.ts: what each write of messages keeps.
use zolo.Prelude.{
  ℕ, suc, ◌≤◌, ◌<◌, String, ◌≡◌, refl, ◌∙◌, subst, Bool, true, false, not, ◌&&◌, Option, none, some,
  List, [], ◌∷◌, nat_eq, string_eq, option_eq, ◌==◌, arith, All, find, update, inl, inr, Bool-cases,
  Option-cases, Result-cases, is_none, and_right, All-append, ok_injective, bound, ok,
}
use zolo.Domain.{Mode}
use zolo.Media.{StoredMedia}
use zolo.Inbox.{
  Inbox, Row, MediaRow, set_row, with_media, ParsedMessage, Ending, released, access_denied, has_id,
  is_processed, ingest, accept, capture_row, new_row,
}
use zolo.Inbox.Turns.{
  admit, join_all, opened, join_opened, locked_rows, first_turn, join_turn, in_turn, ended,
}
use zolo.Inbox.Endings.{message, deny, release, captured, capture_failed, file_row, is_ready}
use zolo.Inbox.Rows.{
  AllSound, Kept, IsFinal, AllKept, AllKept-refl, AllKept-like, AllKept-update, AllKept-found,
  AllSound-kept, AllSound-append, below-like, no_endings, Kept-refl,
}

-- No identifier and no external identifier stands twice, no message ended twice, and the one that
-- took a message's text is behind it.
pub record Sound (x : Inbox) : Type 0 where
  pub below : All (λ (r : Row). r.id < x.db.fresh) x.messages
  pub rows : AllSound x.messages

pub below-le :
    (n m : ℕ) (rows : List Row)
    → n ≤ m
    → All (λ (r : Row). r.id < n) rows
    → All (λ (r : Row). r.id < m) rows
below-le n m [] l h = tt
below-le n m (r ∷ rows) l (h, hs) = (omega arith, below-le n m rows l hs)

pub Sound-kept :
    (x y : Inbox) → x.db.fresh ≤ y.db.fresh → AllKept x.messages y.messages → Sound x → Sound y
Sound-kept x y l k s = record {
  below =
      below-like y.db.fresh (AllKept-like k) (below-le x.db.fresh y.db.fresh x.messages l s.below);
  rows = AllSound-kept k s.rows;
}

-- Writes that keep a row.
pub Kept-ended :
    (why : Ending) (r : Row) → IsFinal why → is_processed r ≡ false → Kept r (ended why r)
Kept-ended why r final e =
    let none_yet = no_endings r.endings e in
    record {
      same = record { id = refl; external = refl; phone = λ p e. e };
      endings = inr (none_yet, why, rw none_yet refl, final);
    }

pub released-Kept :
    (why : Ending) (id : ℕ) (rows : List Row)
    → IsFinal why
    → AllKept rows (update (λ r. has_id id r && not (is_processed r)) (ended why) rows)
released-Kept why id rows final = AllKept-update _ _ rows (each rows)
  where
    each :
        (rows : List Row)
        → All (λ r. (has_id id r && not (is_processed r)) ≡ true → Kept r (ended why r)) rows
    each [] = tt
    each (r ∷ rows) =
        ((λ e. Kept-ended why r final (ground (arith, and_right (has_id id r) _ e))), each rows)

-- An update that leaves a row's message and its endings.
pub AllKept-plain :
    (p : Row → Bool) (f : Row → Row)
    → ((r : Row) → Kept r (f r))
    → (rows : List Row) → AllKept rows (update p f rows)
AllKept-plain p f k rows = AllKept-update p f rows (each rows)
  where
    each : (rows : List Row) → All (λ r. p r ≡ true → Kept r (f r)) rows
    each [] = tt
    each (r ∷ rows) = ((λ e. k r), each rows)

pub message-found :
    (id : ℕ) (x : Inbox) (r : Row) → message id x ≡ ok r → find (has_id id) x.messages ≡ some r
unfolding message
message-found id x r h = elim (Option-cases (find (has_id id) x.messages)) [
  | inl e ↦ absurd (grind arith)
  | inr (q, e) ↦ grind arith
]

pub release-Sound : (code : String) (id : ℕ) (x : Inbox) → Sound x → Sound (release code id x)
unfolding release
release-Sound code id x s =
    Sound-kept x _ (omega arith) (released-Kept (released code) id x.messages (λ i e. absurd (cc)))
      s

pub Kept-plain :
    (r s : Row)
    → s.id ≡ r.id
    → s.external_id ≡ r.external_id
    → s.phone ≡ r.phone
    → s.endings ≡ r.endings
    → Kept r s
Kept-plain r s a b c d = record {
  same = record { id = a; external = b; phone = λ p e. c ∙ e };
  endings = inl d;
}

-- The row of an identifier is written, if a row has it.
pub Sound-row :
    (id : ℕ) (f : Row → Row) (x y : Inbox) (r : Row)
    → message id x ≡ ok r
    → Kept r (f r)
    → x.db.fresh ≤ y.db.fresh
    → y.messages ≡ update (has_id id) f x.messages
    → Sound x
    → Sound y
Sound-row id f x y r e k l m s =
    Sound-kept x y l (rw m (AllKept-found id f x.messages r s.rows (message-found id x r e) k)) s

-- A step behind the read of a row: nothing, or a write of that row.
pub deny-Sound : (id : ℕ) (x x' : Inbox) → deny id x ≡ ok x' → Sound x → Sound x'
unfolding deny
deny-Sound id x x' h s =
    let (r, e, k) = bound (message id x) _ x' h in
    elim (Bool-cases (is_processed r)) [
      | inl t ↦ subst Sound (ok_injective (rw t at k)) s
      | inr t ↦ subst Sound (ok_injective (rw t at k)) (
          Sound-row id (ended access_denied) x _ r e
            (Kept-ended access_denied r (λ i c. absurd (cc)) t) (omega arith) refl s)
    ]

pub capture_failed-Sound : (id : ℕ) (x : Inbox) → Sound x → Sound (capture_failed id x)
unfolding capture_failed
capture_failed-Sound id x s =
    Sound-kept x _ (omega arith)
      (AllKept-plain _ _ (λ r. Kept-plain r _ refl refl refl refl) x.messages) s

pub captured-Sound :
    (id : ℕ) (file : StoredMedia) (x x' : Inbox) → captured id file x ≡ ok x' → Sound x → Sound x'
unfolding captured
captured-Sound id file x x' h s =
    let (r, e, k) = bound (message id x) _ x' h in
    elim (Bool-cases (is_ready r.media_state)) [
      | inl t ↦ subst Sound (ok_injective (rw t at k)) s
      | inr t ↦
          subst Sound (ok_injective (rw t at k))
            (taken (find (λ m. m.message_id == id) x.media) refl)
    ]
  where
    taken :
        (there : Option MediaRow)
        → find (λ (m : MediaRow). m.message_id == id) x.media ≡ there
        → Sound (set_row id (with_media (file_row id file x).0) (file_row id file x).1)
    taken (some m) e =
        rw (e, file_row)
          (Sound-kept x _ (omega arith)
            (AllKept-plain _ _ (λ r. Kept-plain r _ refl refl refl refl) x.messages) s)
    taken none e =
        rw (e, file_row)
          (Sound-kept x _ (omega arith)
            (AllKept-plain _ _ (λ r. Kept-plain r _ refl refl refl refl) x.messages) s)

pub ingest-Sound :
    (session : String) (show_id : ℕ → String) (p : ParsedMessage) (mode : Mode)
    (file : Option StoredMedia) (x : Inbox)
    → Sound x
    → Sound (ingest session show_id p mode file x).1
unfolding ingest
ingest-Sound session show_id p mode file x s =
    elim (Option-cases (find (λ r. r.external_id == p.external_id) x.messages)) [
      | inr (r, e) ↦ rw (e, ingest) s
      | inl e ↦ rw (e, ingest) (accepted file e)
    ]
  where
    low : All (λ (r : Row). r.id < suc (suc x.db.fresh)) x.messages
    low = below-le x.db.fresh _ x.messages (omega arith) s.below

    accepted :
        (file : Option StoredMedia)
        → find (λ (r : Row). r.external_id == p.external_id) x.messages ≡ none
        → Sound (accept session show_id p mode file x).1
    accepted none e = record {
      below =
          All-append (λ (r : Row). r.id < suc (suc x.db.fresh)) x.messages _ low (omega arith, tt);
      rows = AllSound-append (new_row x.db.fresh mode p) refl x.messages s.below e s.rows;
    }
    accepted (some f) e = record {
      below =
          All-append (λ (r : Row). r.id < suc (suc x.db.fresh)) x.messages _ low (omega arith, tt);
      rows =
          AllSound-append (capture_row (suc x.db.fresh) (some f) (new_row x.db.fresh mode p)) refl
            x.messages s.below e s.rows;
    }

in_turn-Kept : (turn : ℕ × ℕ) (r : Row) → Kept r (in_turn turn r)
in_turn-Kept turn r = elim (Bool-cases (is_none r.turn)) [
  | inl e ↦ rw e (Kept-plain r _ refl refl refl refl)
  | inr e ↦ rw e (Kept-refl r)
]

join_all-Sound :
    (turn : ℕ × ℕ) (n : ℕ) (rows : List Row) (x x' : Inbox)
    → join_all turn n rows x ≡ ok x'
    → Sound x
    → Sound x'
unfolding join_all
join_all-Sound turn n [] x x' h s = subst Sound (ok_injective h) s
join_all-Sound turn n (r ∷ rows) x x' h s =
    elim (Result-cases (join_turn turn.0 r.id n x.turn_messages)) [
      | inr (e, bad) ↦ absurd (let k = rw (bad, join_all) at h in cc)
      | inl (joined, e) ↦ join_all-Sound turn (suc n) rows _ x' (rw (e, join_all) at h) (
          Sound-kept x _ (omega arith)
            (AllKept-plain (has_id r.id) (in_turn turn) (in_turn-Kept turn) x.messages) s)
    ]

-- Opening a turn writes no message.
opened-Sound :
    (turn : Option (ℕ × ℕ)) (conversation : Option ℕ) (x : Inbox)
    → Sound x
    → Sound (opened turn conversation x).1
opened-Sound (some turn) conversation x s = s
opened-Sound none conversation x s = Sound-kept x _ (omega arith) (AllKept-refl x.messages) s

join_opened-Sound :
    (rows : List Row) (o : (ℕ × ℕ) × Inbox) (x' : Inbox)
    → join_opened rows o ≡ ok x'
    → Sound o.1
    → Sound x'
join_opened-Sound rows (turn, x) x' h s = elim (Result-cases (join_all turn 0 rows x)) [
  | inr (e, bad) ↦ absurd (let k = rw (bad, join_opened) at h in cc)
  | inl (y, e) ↦
      let s' = join_all-Sound turn 0 rows x y e s in
      subst Sound (ok_injective (rw (e, join_opened) at h))
        (Sound-kept y _ (omega arith) (AllKept-refl y.messages) s')
]

pub admit-Sound :
    (snapshot : List Row) (x x' : Inbox) → admit snapshot x ≡ ok x' → Sound x → Sound x'
unfolding admit
admit-Sound snapshot x x' h s = by_rows (locked_rows snapshot x) refl
  where
    by_rows : (rows : List Row) → locked_rows snapshot x ≡ rows → Sound x'
    by_rows [] e = subst Sound (ok_injective (rw (e, admit) at h)) s
    by_rows (r ∷ rows) e =
        join_opened-Sound (r ∷ rows) _ x' (rw (e, admit) at h)
          (opened-Sound (first_turn (r ∷ rows)) r.conversation_id x s)
