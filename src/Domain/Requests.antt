-- ===== src/Domain/Requests.antt =====
-- src/domain/types.ts: a request, its items and its parties.
-- A date "YYYY-MM-DD" is its day number, counted from 1970-01-01: for years of four digits the
-- order of the texts is the order of the numbers. An instant is a number of milliseconds. An
-- identifier is a number, and a coordinate is the text of its decimal number.
use zolo.Prelude.{ℕ, ℤ, String, Bool, true, false, Option, List, ◌≡◌, refl, subst}

pub data ItemKind : Type 0 where
  bed sofa wardrobe fridge oven table_set table chairs washing_machine dryer : ItemKind
  freezer dishwasher other piano house_move : ItemKind

-- Distinct numbers for the distinct kinds, for `===` on them.
abbrev pub kind_number : ItemKind → ℕ
kind_number bed = 0
kind_number sofa = 1
kind_number wardrobe = 2
kind_number fridge = 3
kind_number oven = 4
kind_number table_set = 5
kind_number table = 6
kind_number chairs = 7
kind_number washing_machine = 8
kind_number dryer = 9
kind_number freezer = 10
kind_number dishwasher = 11
kind_number other = 12
kind_number piano = 13
kind_number house_move = 14

-- The text of a kind in the data.
abbrev pub kind_text : ItemKind → String
kind_text bed = "bed"
kind_text sofa = "sofa"
kind_text wardrobe = "wardrobe"
kind_text fridge = "fridge"
kind_text oven = "oven"
kind_text table_set = "table_set"
kind_text table = "table"
kind_text chairs = "chairs"
kind_text washing_machine = "washing_machine"
kind_text dryer = "dryer"
kind_text freezer = "freezer"
kind_text dishwasher = "dishwasher"
kind_text other = "other"
kind_text piano = "piano"
kind_text house_move = "house_move"

pub data OvenType : Type 0 where
  built_in combined : OvenType

pub data Evacuation : Type 0 where
  no_evacuation equivalent different : Evacuation

pub record ItemInput : Type 0 where
  pub kind : ItemKind
  pub description : String
  pub quantity : ℕ

pub record Item : Type 0 where
  pub kind : ItemKind
  pub description : String
  pub quantity : ℕ
  pub free : Option Bool
  pub working : Option Bool
  pub needs_disassembly : Option Bool
  pub wardrobe_small_whole : Option Bool
  pub oven_type : Option OvenType
  pub evacuation : Option Evacuation

pub data Role : Type 0 where
  donor receiver : Role

abbrev pub is_donor : Role → Bool
is_donor donor = true
is_donor receiver = false

abbrev pub is_receiver : Role → Bool
is_receiver donor = false
is_receiver receiver = true

abbrev pub same_role : Role → Role → Bool
same_role donor r = is_donor r
same_role receiver r = is_receiver r

pub same_role_sound : (a b : Role) → same_role a b ≡ true → a ≡ b
same_role_sound donor donor h = refl
same_role_sound donor receiver h = absurd (cc)
same_role_sound receiver donor h = absurd (cc)
same_role_sound receiver receiver h = refl

same_role_refl : (a : Role) → same_role a a ≡ true
same_role_refl donor = refl
same_role_refl receiver = refl

pub same_role_complete : (a b : Role) → a ≡ b → same_role a b ≡ true
same_role_complete a b h = subst (λ x. same_role a x ≡ true) h (same_role_refl a)

abbrev pub other_role : Role → Role
other_role donor = receiver
other_role receiver = donor

pub data Origin : Type 0 where
  donation direct : Origin

abbrev pub is_direct : Origin → Bool
is_direct donation = false
is_direct direct = true

pub data RequestStatus : Type 0 where
  collecting available awaiting_approval waiting_capacity coordinated human cancel_pending
        cancelled :
      RequestStatus
  closed rejected : RequestStatus

pub record Party : Type 0 where
  pub role : Role
  pub phone : String
  pub name : Option String
  pub settlement : Option String
  pub address : Option String
  pub floor : Option ℤ
  pub floor_note_shown : Bool
  pub approved_at : Option ℕ
  pub approved_by : Option String
  pub schedule_approved : Bool
  pub schedule_approved_date : Option ℕ
  pub schedule_approved_at : Option ℕ

pub record RequestLocation : Type 0 where
  pub role : Role
  pub latitude : String
  pub longitude : String
  pub captured_at : ℕ

pub record Verification : Type 0 where
  pub role : Role
  pub state : String

pub record Request : Type 0 where
  pub id : ℕ
  pub number : ℕ
  pub version : ℕ
  pub status : RequestStatus
  pub origin : Origin
  pub verification_contacted : Bool
  pub items : List Item
  pub parties : List Party
  pub photo_ids : List ℕ
  pub locations : List RequestLocation
  pub verification_states : List Verification
  pub run_date : Option ℕ
  pub proposed_run_date : Option ℕ
  pub earliest_run_date : Option ℕ
  pub preferred_time : Option String
  pub represents_both_parties : Bool
  pub closed_at : Option ℕ
  pub human_reason : Option String
  pub created_at : ℕ
