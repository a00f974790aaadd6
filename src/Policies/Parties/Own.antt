-- ===== src/Policies/Parties/Own.antt =====
-- src/domain/policies.ts: the party that `ownParty` finds, and writes through it.
use zolo.Prelude.{
  String, Bool, true, false, not, ◌&&◌, ◌||◌, Option, none, some, List, [], ◌∷◌, ◌≡◌, ◌≢◌, ◌⊎◌,
  refl, sym, ap, ◌∙◌, subst, arith, Bool-cases, Option-cases, inl, inr, Result, ok, err,
  ok_injective, any, find, or_else, string_eq, nonempty, some_injective, and_left, and_right,
  find-none, any-find, All, All-map, Mem, find-Mem, not_found, eq_sound, eq_complete, ◌==◌,
}
use zolo.Domain.{Role, same_role, same_role_sound, same_role_complete, Party, Request}
use zolo.Policies.Parties.{filled, is_own, is_incomplete, own_test, own_party, forbidden_party}

find-alike :
    (p q : Party → Bool) (ps : List Party) → ((x : Party) → p x ≡ q x) → find p ps ≡ find q ps
find-alike p q [] same = refl
find-alike p q (x ∷ ps) same = ground (arith, same x, find-alike p q ps same)

find-both :
    (p q : Party → Bool) (ps : List Party)
    → find (λ x. p x && (not (any (λ y. p y && q y) ps) || q x)) ps
      ≡ or_else (find (λ x. p x && q x) ps) (find p ps)
find-both p q ps = elim (Bool-cases (any (λ y. p y && q y) ps)) [
  | inl there ↦ let (y, e) = any-find (λ y. p y && q y) ps there in rw (there, e)
  | inr nowhere ↦
      rw (nowhere, find-none (λ y. p y && q y) (λ y. p y && q y) ps (λ x h. h) nowhere)
        (find-alike (λ x. p x && (not false || q x)) p ps (λ x. ground arith))
]

-- The first of the request's parties that passes own_test is the one that ownParty returns.
own_party-own_test :
    (r : Request) (phone : String) (role : Option Role) (p : Party)
    → own_party r phone role ≡ ok p
    → find (own_test r phone role) r.parties ≡ some p
unfolding own_party own_test
own_party-own_test r phone role p h =
    let found =
      or_else (find (λ x. is_own phone role x && is_incomplete x) r.parties)
        (find (is_own phone role) r.parties) in
    elim (Option-cases found) [
      | inl lost ↦ absurd (let k = rw (lost, own_party) at h in cc)
      | inr (q, e) ↦
          let same = ok_injective (rw (e, own_party) at h) in
          find-both (is_own phone role) is_incomplete r.parties ∙ subst (λ x. found ≡ some x) same e
    ]

-- A text that is there and not empty.
abbrev pub Filled : Option String → Type 0
Filled o = (text : String) × (o ≡ some text) × (text ≢ "")

abbrev pub Complete : Party → Type 0
Complete p = Filled p.name × Filled p.settlement × Filled p.address

-- The party is the speaker's, in the role that was asked for.
abbrev pub OwnedBy : String → Option Role → Party → Type 0
OwnedBy phone role p = (p.phone ≡ phone) × ((role ≡ none) ⊎ (role ≡ some p.role))

-- What ownParty promises of its answer.
abbrev pub Answers : Request → String → Option Role → Result Party → Type 0
Answers r phone role (ok p) =
    Mem p r.parties
    × OwnedBy phone role p
    × (Complete p → All (λ q. OwnedBy phone role q → Complete q) r.parties)
Answers r phone role (err e) = (e ≡ forbidden_party) × All (λ q. ¬ OwnedBy phone role q) r.parties

pub filled-Filled : (o : Option String) → filled o ≡ true → Filled o
filled-Filled none h = absurd (cc)
filled-Filled (some text) h = (
  text,
  refl,
  λ e. let k : nonempty "" ≡ true = subst (λ x. nonempty x ≡ true) e h in absurd (cc),
)

nonempty_lem : (text : String) → nonempty text ≡ false → text ≡ ""
nonempty_lem String.[] h = refl
nonempty_lem (String.◌∷◌ _ _) h = absurd (cc)

unfilled : (o : Option String) → filled o ≡ false → ¬ Filled o
unfilled none h (text, e, full) = absurd (cc)
unfilled (some x) h (text, e, full) = full (sym (some_injective e) ∙ nonempty_lem x h)

is_own-OwnedBy :
    (phone : String) (role : Option Role) (p : Party)
    → is_own phone role p ≡ true
    → OwnedBy phone role p
is_own-OwnedBy phone none p h =
    (eq_sound p.phone phone (and_left (p.phone == phone) true h), inl refl)
is_own-OwnedBy phone (some role) p h = (
  eq_sound p.phone phone (and_left (p.phone == phone) (same_role role p.role) h),
  inr (
      ap some
        (same_role_sound role p.role (and_right (p.phone == phone) (same_role role p.role) h))),
)

OwnedBy-is_own :
    (phone : String) (role : Option Role) (p : Party)
    → OwnedBy phone role p
    → is_own phone role p ≡ true
OwnedBy-is_own phone none p (same, _) = ground (arith, eq_complete p.phone phone same)
OwnedBy-is_own phone (some role) p (same, inl e) = absurd (cc)
OwnedBy-is_own phone (some role) p (same, inr e) =
    ground
      (arith, eq_complete p.phone phone same, same_role_complete role p.role (some_injective e))

is_incomplete-Complete : (p : Party) → is_incomplete p ≡ false → Complete p
is_incomplete-Complete p h = (
  filled-Filled p.name (ground arith),
  filled-Filled p.settlement (ground arith),
  filled-Filled p.address (ground arith),
)

incomplete : (p : Party) → is_incomplete p ≡ true → ¬ Complete p
incomplete p h (name, settlement, address) = elim (Bool-cases (filled p.name)) [
  | inr e ↦ unfilled p.name e name
  | inl e ↦ elim (Bool-cases (filled p.settlement)) [
    | inr e' ↦ unfilled p.settlement e' settlement
    | inl e' ↦ unfilled p.address (ground arith) address
  ]
]

-- OwnParty returns a party of the request that has the phone, and the role where one is asked for;
-- when that party has a name, a settlement and an address, so has every party of the phone and the
-- role. It fails, as forbidden, only when no party of the request has the phone and the role.
pub own_party-Answers :
    (r : Request) (phone : String) (role : Option Role)
    → Answers r phone role (own_party r phone role)
unfolding own_party
own_party-Answers r phone role =
    let own = is_own phone role in
    elim (Option-cases (find (λ x. own x && is_incomplete x) r.parties)) [
      | inr (p, e) ↦
          let (there, test) = find-Mem (λ x. own x && is_incomplete x) r.parties p e in
          let found : own_party r phone role ≡ ok p = rw (e, own_party) refl in
          subst (Answers r phone role) (sym found) (
            there,
            is_own-OwnedBy phone role p (and_left (own p) (is_incomplete p) test),
            λ full. absurd (incomplete p (and_right (own p) (is_incomplete p) test) full),
          )
      | inl nowhere ↦ elim (Option-cases (find own r.parties)) [
        | inr (p, e) ↦
            let (there, test) = find-Mem own r.parties p e in
            let found : own_party r phone role ≡ ok p = rw (nowhere, e, own_party) refl in
            subst (Answers r phone role) (sym found) (
              there,
              is_own-OwnedBy phone role p test,
              λ _.
                  All-map (λ q. (own q && is_incomplete q) ≡ false)
                    (λ q. OwnedBy phone role q → Complete q) r.parties
                    (λ q f his.
                      is_incomplete-Complete q
                        (let k = OwnedBy-is_own phone role q his in ground arith))
                    (not_found (λ x. own x && is_incomplete x) r.parties nowhere),
            )
        | inl no_own ↦
            let lost : own_party r phone role ≡ err forbidden_party =
              rw (nowhere, no_own, own_party) refl in
            subst (Answers r phone role) (sym lost) (
              refl,
              All-map (λ q. own q ≡ false) (λ q. ¬ OwnedBy phone role q) r.parties
                  (λ q f his. absurd (let k = OwnedBy-is_own phone role q his in cc))
                  (not_found own r.parties no_own),
            )
      ]
    ]
