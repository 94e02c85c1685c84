-- ===== src/Approval.antt =====
-- approval/service.ts: the approvals that wait for a human. Ids come from `randomUUID` and are
-- arguments; times are milliseconds; `settled` records the promises that were resolved, the newest
-- first.
pub mod Once
pub mod Deciding
pub mod Closing
use agent_permission_guard.Base.{
  ltb, leb, ◌==◌, if◌then◌else◌, keep, Text, text_eq, sort_by, ℕ, ◌+◌, compare, Bool, true, false,
  ◌||◌, not, Option, none, some, List, [], ◌∷◌,
}
use agent_permission_guard.Json.{Value}
use agent_permission_guard.Audit.Records.{ApprovalOutcome, approved, denied, expired, cancelled}
use agent_permission_guard.Audit.Redaction.{redact_for_audit}

-- `ApprovalRequestView`, without what is copied from the input unread.
pub record PendingEntry : Type 0 where
  pub id : Text
  pub arguments : Value
  pub requested_at : ℕ
  pub expires_at : ℕ
  pub visible : Bool

pub record Service : Type 0 where
  pub pending : List PendingEntry
  pub closed : Bool
  pub settled : List (Text × ApprovalOutcome)

pub data ServiceError : Type 0 where
  service_closed ttl_invalid date_invalid no_longer_pending : ServiceError

pub data Result {ℓ} (A : Type ℓ) : Type ℓ where
  ok : A → Result A
  err : ServiceError → Result A

abbrev pub empty_service : Service
empty_service = record { pending = []; closed = false; settled = [] }

-- `Map.get`, `Map.set` and `Map.delete`.
unfoldable pub find : Text → List PendingEntry → Option PendingEntry
find id [] = none
find id (e ∷ es) = if text_eq e.id id then some e else find id es

unfoldable pub put : PendingEntry → List PendingEntry → List PendingEntry
put new [] = new ∷ []
put new (e ∷ es) = if text_eq e.id new.id then new ∷ es else e ∷ put new es

unfoldable pub remove : Text → List PendingEntry → List PendingEntry
remove id [] = []
remove id (e ∷ es) = if text_eq e.id id then es else e ∷ remove id es

-- The last millisecond of a `Date`.
abbrev pub max_date : ℕ
max_date = 8640000000000000

abbrev pub max_safe_integer : ℕ
max_safe_integer = 9007199254740991

abbrev pub new_entry : Text → Value → ℕ → ℕ → PendingEntry
new_entry id arguments now ttl = record {
  id = id;
  arguments = redact_for_audit arguments;
  requested_at = now;
  expires_at = now + ttl;
  visible = false;
}

unfoldable pub request_hidden : Text → Value → ℕ → ℕ → Service → Result Service
unfolding put
request_hidden id arguments now ttl s =
    if s.closed
    then err service_closed
    else if ttl == 0 || ltb max_safe_integer ttl
    then err ttl_invalid
    else if ltb max_date (now + ttl)
    then err date_invalid
    else ok (record s { pending = put (new_entry id arguments now ttl) s.pending })

-- `entry.visible = true` on the entry of the id.
unfoldable pub show : Text → List PendingEntry → List PendingEntry
show id [] = []
show id (e ∷ es) = if text_eq e.id id then record e { visible = true } ∷ es else e ∷ show id es

unfoldable pub publish : Text → Service → Result Service
unfolding find show
publish id s = elim (find id s.pending) [
  | none ↦ err no_longer_pending
  | some e ↦ ok (record s { pending = show id s.pending })
]

abbrev pub and_then : Result Service → (Service → Result Service) → Result Service
and_then (ok s) f = f s
and_then (err e) f = err e

unfoldable pub request : Text → Value → ℕ → ℕ → Service → Result Service
unfolding request_hidden publish
request id arguments now ttl s = and_then (request_hidden id arguments now ttl s) (publish id)

-- The entries that are visible, the oldest first. The source's comparator never gives 0; entries of
-- the same time stand in the order in which they were requested.
pub list_pending : Service → List PendingEntry
unfolding sort_by
list_pending s =
    sort_by (λ a b. compare a.requested_at b.requested_at) (keep (λ e. e.visible) s.pending)

unfoldable pub settle : Text → ApprovalOutcome → Service → Service
unfolding find remove
settle id outcome s = elim (find id s.pending) [
  | none ↦ s
  | some e ↦ record s { pending = remove id s.pending; settled = (id, outcome) ∷ s.settled }
]

-- What the dashboard decides: `true` approves.
abbrev pub verdict : Bool → ApprovalOutcome
verdict true = approved
verdict false = denied

unfoldable pub decide : Text → Bool → ℕ → Service → Service × Option ApprovalOutcome
unfolding find settle
decide id approves now s = elim (find id s.pending) [
  | none ↦ (s, none)
  | some e ↦
      if not e.visible
      then (s, none)
      else if leb e.expires_at now
      then (settle id expired s, some expired)
      else (settle id (verdict approves) s, some (verdict approves))
]

unfoldable pub cancel_all : List PendingEntry → Service → Service
unfolding settle
cancel_all [] s = s
cancel_all (e ∷ es) s = cancel_all es (settle e.id cancelled s)

unfoldable pub close : Service → Service
unfolding cancel_all
close s = if s.closed then s else cancel_all s.pending (record s { closed = true })

-- What may happen to the service: its methods, the timer of an entry and the cancellation of a
-- ticket.
pub data Event : Type 0 where
  requests : Bool → Text → Value → ℕ → ℕ → Event
  publishes fires cancels : Text → Event
  decides : Text → Bool → ℕ → Event
  closes : Event

abbrev pub or_same : Service → Result Service → Service
or_same s (ok t) = t
or_same s (err e) = s

unfoldable pub step : Event → Service → Service
step (requests true id arguments now ttl) s = or_same s (request_hidden id arguments now ttl s)
step (requests false id arguments now ttl) s = or_same s (request id arguments now ttl s)
step (publishes id) s = or_same s (publish id s)
step (fires id) s = settle id expired s
step (cancels id) s = settle id cancelled s
step (decides id approves now) s = (decide id approves now s).0
step closes s = close s

unfoldable pub run : List Event → Service → Service
run [] s = s
run (e ∷ es) s = run es (step e s)
