-- ===== src/Policies/Parties.antt =====
-- src/domain/policies.ts: `photoGate`, `isClosed`, `mutable` and `ownParty`.
pub mod Own
use zolo.Prelude.{
  String, Bool, true, false, not, ◌&&◌, ◌||◌, Option, none, some, any, find, is_empty, string_eq,
  ◌==◌, or_else, filled, Failure, app_error, Result, ok, err, ensure,
}
use zolo.Domain.{
  Role, is_donor, is_receiver, same_role, is_direct, RequestStatus, coordinated, cancel_pending,
  cancelled, closed, rejected, Party, Request,
}

abbrev pub photo_gate : Request → Bool
photo_gate r =
    not (is_direct r.origin)
    && any (λ p. is_donor p.role) r.parties
    && not (any (λ p. is_receiver p.role) r.parties)
    && is_empty r.photo_ids

abbrev pub closed_status : RequestStatus → Bool
closed_status closed = true
closed_status cancelled = true
closed_status rejected = true
closed_status _ = false

abbrev pub is_closed : Request → Bool
is_closed r = closed_status r.status

abbrev pub protected_status : RequestStatus → Bool
protected_status coordinated = true
protected_status cancel_pending = true
protected_status s = closed_status s

abbrev pub request_protected : Failure
request_protected =
    app_error "request_protected" 409
      "\u{5d4}\u{5e4}\u{5e0}\u{5d9}\u{5d9}\u{5d4} \u{5de}\u{5d5}\u{5d2}\u{5e0}\u{5ea} \u{5de}\u{5e9}\u{5d9}\u{5e0}\u{5d5}\u{5d9}. \u{5dc}\u{5e4}\u{5e0}\u{5d9}\u{5d9}\u{5d4} \u{5d7}\u{5d3}\u{5e9}\u{5d4} \u{5d9}\u{5e9} \u{5dc}\u{5e6}\u{5d9}\u{5d9}\u{5df} \u{5e9}\u{5de}\u{5d3}\u{5d5}\u{5d1}\u{5e8} \u{5d1}\u{5d1}\u{5e7}\u{5e9}\u{5d4} \u{5d7}\u{5d3}\u{5e9}\u{5d4}; \u{5dc}\u{5e9}\u{5d9}\u{5e0}\u{5d5}\u{5d9} \u{5d4}\u{5ea}\u{5d9}\u{5d0}\u{5d5}\u{5dd} \u{5e0}\u{5e2}\u{5d1}\u{5d9}\u{5e8} \u{5dc}\u{5d8}\u{5d9}\u{5e4}\u{5d5}\u{5dc} \u{5d0}\u{5e0}\u{5d5}\u{5e9}\u{5d9}."

-- `mutable(r)`: a request that is coordinated, closed or in cancellation is not edited.
unfoldable pub mutable : Request → Result (Unit {0})
mutable r = ensure (not (protected_status r.status)) request_protected

abbrev pub forbidden_party : Failure
forbidden_party =
    app_error "forbidden_party" 403
      "\u{5d0}\u{5e4}\u{5e9}\u{5e8} \u{5dc}\u{5e2}\u{5d3}\u{5db}\u{5df} \u{5e8}\u{5e7} \u{5d0}\u{5ea} \u{5d4}\u{5e6}\u{5d3} \u{5e9}\u{5dc}\u{5da} \u{5d1}\u{5e4}\u{5e0}\u{5d9}\u{5d9}\u{5d4}."

abbrev pub has_role : Option Role → Party → Bool
has_role none p = true
has_role (some role) p = same_role role p.role

-- The parties of a phone, and those of them that lack a name, a settlement or an address.
abbrev pub is_own : String → Option Role → Party → Bool
is_own phone role p = p.phone == phone && has_role role p

abbrev pub is_incomplete : Party → Bool
is_incomplete p = not (filled p.name) || not (filled p.settlement) || not (filled p.address)

-- Which party `ownParty` returns a reference to: a test that its first fit passes.
unfoldable pub own_test : Request → String → Option Role → Party → Bool
own_test r phone role p =
    let incomplete = any (λ q. is_own phone role q && is_incomplete q) r.parties in
    is_own phone role p && (not incomplete || is_incomplete p)

-- `ownParty(r, phone, role)`
unfoldable pub own_party : Request → String → Option Role → Result Party
own_party r phone role =
    elim (or_else (find (λ p. is_own phone role p && is_incomplete p) r.parties)
      (find (is_own phone role) r.parties)) [ some p ↦ ok p | none ↦ err forbidden_party ]
