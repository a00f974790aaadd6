-- ===== src/Policies/Status.antt =====
-- src/domain/policies.ts: `statusText`. The order of two texts
-- by `localeCompare` is the platform's: the argument `before`.
use zolo.Prelude.{
  ℕ, suc, String, Bool, Option, none, some, List, [], ◌∷◌, map, ltb, find, nonempty, filled,
  text_of, nat_eq, option_eq, ◌==◌, if◌then◌else◌, is_empty, length, template, join, show,
}
use zolo.Domain.{
  Role, donor, receiver, is_donor, is_receiver, RequestStatus, collecting, available,
  awaiting_approval, waiting_capacity, coordinated, human, cancel_pending, cancelled, closed,
  rejected, Item, Party, Request, RequestLocation, Verification,
}
use zolo.Policies.Questions.{is_coordinated}
use zolo.Policies.Calendar.{iso_date}

abbrev pub role_choice : Role → String → String → String
role_choice donor d r = d
role_choice receiver d r = r

abbrev label : RequestStatus → String
label collecting = "\u{5d1}\u{5d4}\u{5e9}\u{5dc}\u{5de}\u{5ea} \u{5e4}\u{5e8}\u{5d8}\u{5d9}\u{5dd}"
label available = "\u{5de}\u{5de}\u{5ea}\u{5d9}\u{5e0}\u{5d4} \u{5dc}\u{5de}\u{5e7}\u{5d1}\u{5dc}"
label awaiting_approval =
    "\u{5de}\u{5de}\u{5ea}\u{5d9}\u{5e0}\u{5d4} \u{5dc}\u{5d0}\u{5d9}\u{5e9}\u{5d5}\u{5e8}\u{5d9}\u{5dd}"
label waiting_capacity =
    "\u{5de}\u{5de}\u{5ea}\u{5d9}\u{5e0}\u{5d4} \u{5dc}\u{5de}\u{5e7}\u{5d5}\u{5dd} \u{5d1}\u{5d4}\u{5d5}\u{5d1}\u{5dc}\u{5d4}"
label coordinated = "\u{5ea}\u{5d5}\u{5d0}\u{5de}\u{5d4}"
label closed = "\u{5d4}\u{5d5}\u{5e9}\u{5dc}\u{5de}\u{5d4}"
label cancelled = "\u{5d1}\u{5d5}\u{5d8}\u{5dc}\u{5d4}"
label rejected = "\u{5dc}\u{5d0} \u{5de}\u{5ea}\u{5d0}\u{5d9}\u{5de}\u{5d4}"
label human = "\u{5d1}\u{5d8}\u{5d9}\u{5e4}\u{5d5}\u{5dc} \u{5d0}\u{5e0}\u{5d5}\u{5e9}\u{5d9}"
label cancel_pending =
    "\u{5de}\u{5de}\u{5ea}\u{5d9}\u{5e0}\u{5d4} \u{5dc}\u{5d4}\u{5d7}\u{5dc}\u{5d8}\u{5d4} \u{5dc}\u{5d0}\u{5d7}\u{5e8} \u{5d1}\u{5d9}\u{5d8}\u{5d5}\u{5dc}"

-- `i.description`, with the quantity behind it when there are several.
item_label : Item → String
unfolding show
item_label i =
    if ltb 1 i.quantity
    then template (i.description ∷ " ×" ∷ show i.quantity ∷ [])
    else i.description

-- `party?.field ?? "—"`
abbrev or_dash : Option String → String
or_dash none = "—"
or_dash (some s) = s

abbrev field_of : (Party → Option String) → Option Party → Option String
field_of f none = none
field_of f (some p) = f p

abbrev waze : RequestLocation → String
waze l =
    template
      ("https://www.waze.com/ul?ll=" ∷ l.latitude ∷ "%2C" ∷ l.longitude ∷ "&navigate=yes" ∷ [])

location_line : RequestLocation → String
location_line l = template (
    role_choice l.role "\u{5de}\u{5d9}\u{5e7}\u{5d5}\u{5dd} \u{5d0}\u{5d9}\u{5e1}\u{5d5}\u{5e3}"
      "\u{5de}\u{5d9}\u{5e7}\u{5d5}\u{5dd} \u{5d9}\u{5e2}\u{5d3}"
    ∷ ": "
    ∷ waze l
    ∷ [])

verification_line : Verification → String
verification_line v = template (
    role_choice v.role "\u{5de}\u{5d5}\u{5e1}\u{5e8}" "\u{5de}\u{5e7}\u{5d1}\u{5dc}"
    ∷ ": "
    ∷ v.state
    ∷ [])

schedule_line : Request → String
unfolding iso_date
schedule_line r = elim r.run_date [
  | some d ↦ template (
      "\u{5ea}\u{5d0}\u{5e8}\u{5d9}\u{5da} \u{5d4}\u{5d5}\u{5d1}\u{5dc}\u{5d4} \u{5e9}\u{5d0}\u{5d5}\u{5e9}\u{5e8}: "
      ∷ iso_date d
      ∷ [])
  | none ↦ elim r.proposed_run_date [
    | none ↦
        "\u{5ea}\u{5d0}\u{5e8}\u{5d9}\u{5da} \u{5d4}\u{5d5}\u{5d1}\u{5dc}\u{5d4}: \u{5d8}\u{5e8}\u{5dd} \u{5e0}\u{5e7}\u{5d1}\u{5e2}"
    | some d ↦ template (
        "\u{5de}\u{5d5}\u{5e2}\u{5d3} \u{5de}\u{5d5}\u{5e6}\u{5e2} — \u{5de}\u{5de}\u{5ea}\u{5d9}\u{5df} \u{5dc}\u{5d0}\u{5d9}\u{5e9}\u{5d5}\u{5e8}: "
        ∷ iso_date d
        ∷ " · "
        ∷ join " · " (
            map
              (λ p. template (
                role_choice p.role "\u{5de}\u{5d5}\u{5e1}\u{5e8}" "\u{5de}\u{5e7}\u{5d1}\u{5dc}"
                ∷ ": "
                ∷ (if p.schedule_approved_date == some d
                    then "\u{5d0}\u{5d9}\u{5e9}\u{5e8}/\u{5d4}"
                    else "\u{5de}\u{5de}\u{5ea}\u{5d9}\u{5df}/\u{5d4}")
                ∷ []))
              r.parties)
        ∷ [])
  ]
]

party_lines : String → String → Option Party → String
party_lines who place p = template (
    "\n"
    ∷ who
    ∷ ": "
    ∷ or_dash (field_of (λ q. q.name) p)
    ∷ " · "
    ∷ or_dash (field_of (λ q. some q.phone) p)
    ∷ "\n"
    ∷ place
    ∷ ": "
    ∷ or_dash (field_of (λ q. q.settlement) p)
    ∷ ", "
    ∷ or_dash (field_of (λ q. q.address) p)
    ∷ [])

verification_text : Request → String
unfolding verification_line
verification_text r =
    let states = join " · " (map verification_line r.verification_states) in
    if nonempty states
    then states
    else if r.verification_contacted
    then "\u{5de}\u{5e6}\u{5d1} \u{5e7}\u{5d5}\u{5d3}\u{5dd} \u{5dc}\u{5d0} \u{5d5}\u{5d3}\u{5d0}\u{5d9}"
    else "\u{5d8}\u{5e8}\u{5dd} \u{5d4}\u{5ea}\u{5d1}\u{5e7}\u{5e9}"

photo_text : Request → String
unfolding show
photo_text r =
    if is_empty r.photo_ids
    then "\u{5ea}\u{5de}\u{5d5}\u{5e0}\u{5d5}\u{5ea} \u{5e9}\u{5de}\u{5d5}\u{5e8}\u{5d5}\u{5ea}: \u{5d0}\u{5d9}\u{5df}"
    else template (
        "\u{5ea}\u{5de}\u{5d5}\u{5e0}\u{5d5}\u{5ea} \u{5e9}\u{5de}\u{5d5}\u{5e8}\u{5d5}\u{5ea}: "
        ∷ show (length r.photo_ids)
        ∷ " (\u{5d9}\u{5d9}\u{5e9}\u{5dc}\u{5d7}\u{5d5} \u{5d1}\u{5d4}\u{5d5}\u{5d3}\u{5e2}\u{5d5}\u{5ea} \u{5e0}\u{5e4}\u{5e8}\u{5d3}\u{5d5}\u{5ea})"
        ∷ [])

-- The paragraph of one request.
unfoldable pub request_text : Request → String
unfolding item_label location_line schedule_line party_lines verification_text photo_text show
request_text r =
    let d = find (λ p. is_donor p.role) r.parties in
    let v = find (λ p. is_receiver p.role) r.parties in
    let places = join "\n" (map location_line r.locations) in
    template (
      "\u{5e4}\u{5e0}\u{5d9}\u{5d9}\u{5d4} "
      ∷ show r.number
      ∷ "\n\u{5e4}\u{5e8}\u{5d9}\u{5d8}: "
      ∷ join ", " (map item_label r.items)
      ∷ "\n\u{5de}\u{5e6}\u{5d1}: "
      ∷ label r.status
      ∷ party_lines "\u{5de}\u{5d5}\u{5e1}\u{5e8}" "\u{5d0}\u{5d9}\u{5e1}\u{5d5}\u{5e3}" d
      ∷ party_lines "\u{5de}\u{5e7}\u{5d1}\u{5dc}" "\u{5d9}\u{5e2}\u{5d3}" v
      ∷ "\n"
      ∷ (if nonempty places then template (places ∷ "\n" ∷ []) else "")
      ∷ "\n"
      ∷ photo_text r
      ∷ "\n\u{5d0}\u{5d9}\u{5de}\u{5d5}\u{5ea} \u{5e6}\u{5d3} \u{5e9}\u{5e0}\u{5d9}: "
      ∷ verification_text r
      ∷ "\n"
      ∷ schedule_line r
      ∷ "\n\u{5d7}\u{5dc}\u{5d5}\u{5df} \u{5d4}\u{5d5}\u{5d1}\u{5dc}\u{5d4}: 16:00–20:00 · \u{5d1}\u{5d3}\u{5e8}\u{5da} \u{5db}\u{5dc}\u{5dc} \u{5e2}\u{5d3} 10 \u{5d4}\u{5d5}\u{5d1}\u{5dc}\u{5d5}\u{5ea}; \u{5ea}\u{5d5}\u{5e1}\u{5e4}\u{5ea} \u{5d3}\u{5d5}\u{5e8}\u{5e9}\u{5ea} \u{5d0}\u{5d9}\u{5e9}\u{5d5}\u{5e8} \u{5de}\u{5e0}\u{5d4}\u{5dc}"
      ∷ (if is_coordinated r.status
          then "\n\u{5d1}\u{5d9}\u{5d5}\u{5dd} \u{5d4}\u{5d4}\u{5d5}\u{5d1}\u{5dc}\u{5d4} \u{5e0}\u{5d9}\u{5e6}\u{5d5}\u{5e8} \u{5e7}\u{5e9}\u{5e8} \u{5d8}\u{5dc}\u{5e4}\u{5d5}\u{5e0}\u{5d9} \u{5dc}\u{5e4}\u{5e0}\u{5d9} \u{5d4}\u{5d4}\u{5d2}\u{5e2}\u{5d4}"
          else "")
      ∷ (if filled r.human_reason
          then template (
              "\n\u{5e1}\u{5d9}\u{5d1}\u{5ea} \u{5d8}\u{5d9}\u{5e4}\u{5d5}\u{5dc}: "
              ∷ text_of r.human_reason
              ∷ [])
          else "")
      ∷ [])

-- A coordinated request with the places of its two ends.
record Stop : Type 0 where
  request : Request
  pickup : RequestLocation
  target : RequestLocation

stops : List Request → List Stop
stops [] = []
stops (r ∷ rs) =
    let rest = stops rs in
    if is_coordinated r.status
    then elim (find (λ l. is_donor l.role) r.locations) [
      | none ↦ rest
      | some pickup ↦ elim (find (λ l. is_receiver l.role) r.locations) [
        | none ↦ rest
        | some target ↦ record { request = r; pickup = pickup; target = target } ∷ rest
      ]
    ]
    else rest

-- The key by which the stops are sorted.
stop_key : Stop → String
unfolding iso_date
stop_key s = template (
    elim s.request.run_date [ none ↦ "9999-99-99" | some d ↦ iso_date d ]
    ∷ ":"
    ∷ s.pickup.latitude
    ∷ ":"
    ∷ s.pickup.longitude
    ∷ [])

insert_stop : (String → String → Bool) → Stop → List Stop → List Stop
unfolding stop_key
insert_stop before s [] = s ∷ []
insert_stop before s (t ∷ ts) =
    let later = insert_stop before s ts in
    if before (stop_key t) (stop_key s) then t ∷ later else s ∷ t ∷ ts

-- The stable sort of the language. Of equal keys the earlier stop stays before.
sort_stops : (String → String → Bool) → List Stop → List Stop
unfolding insert_stop
sort_stops before [] = []
sort_stops before (s ∷ ss) = insert_stop before s (sort_stops before ss)

route_lines : ℕ → List Stop → List String
unfolding show iso_date
route_lines i [] = []
route_lines i (s ∷ ss) =
    template (
      show i
      ∷ ". \u{5e4}\u{5e0}\u{5d9}\u{5d9}\u{5d4} "
      ∷ show s.request.number
      ∷ " ("
      ∷ elim s.request.run_date [ none ↦ "null" | some d ↦ iso_date d ]
      ∷ ") — \u{5d0}\u{5d9}\u{5e1}\u{5d5}\u{5e3} "
      ∷ waze s.pickup
      ∷ " → \u{5d9}\u{5e2}\u{5d3} "
      ∷ waze s.target
      ∷ [])
    ∷ route_lines (suc i) ss

unfoldable pub status_text : (String → String → Bool) → List Request → String
unfolding request_text stops sort_stops route_lines
status_text before [] =
    "\u{5dc}\u{5d0} \u{5e0}\u{5de}\u{5e6}\u{5d0}\u{5d5} \u{5e4}\u{5e0}\u{5d9}\u{5d5}\u{5ea} \u{5e4}\u{5e2}\u{5d9}\u{5dc}\u{5d5}\u{5ea} \u{5e2}\u{5d1}\u{5d5}\u{5e8}\u{5da}."
status_text before (r ∷ rs) =
    let details = join "\n\n" (map request_text (r ∷ rs)) in
    let route = sort_stops before (stops (r ∷ rs)) in
    if is_empty route
    then details
    else template (
        details
        ∷ "\n\n\u{5d4}\u{5de}\u{5dc}\u{5e6}\u{5ea} \u{5e1}\u{5d3}\u{5e8} \u{5d4}\u{5d5}\u{5d1}\u{5dc}\u{5d5}\u{5ea} \u{5dc}\u{5e4}\u{5d9} \u{5d4}\u{5de}\u{5e4}\u{5d4}:\n"
        ∷ join "\n" (route_lines 1 route)
        ∷ [])
