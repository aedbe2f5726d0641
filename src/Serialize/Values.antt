-- ===== src/Serialize/Values.antt =====
-- Columns as Python values: an optional column, a list of texts, a status.
use real_voice_agent_free.Prelude.{
  ℕ, String, ◌≡◌, refl, ap, ap₂, Option, none, some, List, [], ◌∷◌, DateTime, aware, BusinessHours,
}
use real_voice_agent_free.Json.{
  Json, null, num, str, datetime, arr, obj, Fields, end, field, Items, nil, cons,
}
use real_voice_agent_free.Models.{
  DeliveryStatus, CallStatus, CallOutcome, BookingStatus, AgentStatus, PhoneStatus,
}

abbrev pub opt_str : Option String → Json
opt_str none = null
opt_str (some s) = str s

abbrev pub opt_num : Option ℕ → Json
opt_num none = null
opt_num (some n) = num n

abbrev pub opt_datetime : Option DateTime → Json
opt_datetime none = null
opt_datetime (some t) = datetime (aware t)

abbrev pub string_items : List String → Items
string_items [] = nil
string_items (s ∷ ss) = cons (str s) (string_items ss)

abbrev pub strings : List String → Json
strings ss = arr (string_items ss)

abbrev pub hours_fields : BusinessHours → Fields
hours_fields [] = end
hours_fields ((key, ranges) ∷ rest) = field key (strings ranges) (hours_fields rest)

abbrev pub hours : BusinessHours → Json
hours h = obj (hours_fields h)

-- the texts that the status columns hold
abbrev pub delivery_status_text : DeliveryStatus → String
delivery_status_text DeliveryStatus.pending = "pending"
delivery_status_text DeliveryStatus.delivered = "delivered"
delivery_status_text DeliveryStatus.retry_scheduled = "retry_scheduled"
delivery_status_text DeliveryStatus.failed = "failed"

abbrev pub call_status_text : CallStatus → String
call_status_text CallStatus.active = "active"
call_status_text CallStatus.completed = "completed"
call_status_text CallStatus.failed = "failed"
call_status_text CallStatus.escalated = "escalated"

abbrev pub outcome_text : CallOutcome → String
outcome_text CallOutcome.faq_resolved = "faq_resolved"
outcome_text CallOutcome.booking_created = "booking_created"
outcome_text CallOutcome.escalated = "escalated"
outcome_text CallOutcome.lead_captured = "lead_captured"
outcome_text CallOutcome.abandoned = "abandoned"
outcome_text CallOutcome.failed = "failed"

abbrev pub opt_outcome : Option CallOutcome → Json
opt_outcome none = null
opt_outcome (some o) = str (outcome_text o)

abbrev pub booking_status_text : BookingStatus → String
booking_status_text BookingStatus.confirmed = "confirmed"
booking_status_text BookingStatus.cancelled = "cancelled"
booking_status_text BookingStatus.rescheduled = "rescheduled"

abbrev pub agent_status_text : AgentStatus → String
agent_status_text AgentStatus.draft = "draft"
agent_status_text AgentStatus.published = "published"

abbrev pub phone_status_text : PhoneStatus → String
phone_status_text PhoneStatus.active = "active"
phone_status_text PhoneStatus.inactive = "inactive"

-- Back from the dictionary of a snapshot. A snapshot is written from typed columns, so that an
-- entry of another type does not occur; it is read as empty.
abbrev pub strings_of : Items → List String
strings_of nil = []
strings_of (cons (str s) xs) = s ∷ strings_of xs
strings_of (cons _ xs) = strings_of xs

abbrev pub hours_of : Fields → BusinessHours
hours_of end = []
hours_of (field key (arr xs) fs) = (key, strings_of xs) ∷ hours_of fs
hours_of (field key _ fs) = (key, []) ∷ hours_of fs

strings_of-string_items : (ss : List String) → strings_of (string_items ss) ≡ ss
strings_of-string_items [] = refl
strings_of-string_items (s ∷ ss) = ap (λ (xs : List String). s ∷ xs) (strings_of-string_items ss)

pub hours_of-hours_fields : (h : BusinessHours) → hours_of (hours_fields h) ≡ h
hours_of-hours_fields [] = refl
hours_of-hours_fields ((key, ranges) ∷ rest) =
    ap₂ (λ (rs : List String) (r : BusinessHours). (key, rs) ∷ r) (strings_of-string_items ranges)
      (hours_of-hours_fields rest)
