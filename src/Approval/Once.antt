-- ===== src/Approval/Once.antt =====
-- A request is settled at most once.
use agent_permission_guard.Base.{
  if◌then◌else◌, Option-cases, Text, text_eq, text_eq_iff, ℕ, suc, ◌+◌, ◌≤◌, ◌≡◌, refl, ◌⊎◌, inl,
  inr, Bool, true, false, some, List, [], ◌∷◌, arith,
}
use agent_permission_guard.Json.{Value}
use agent_permission_guard.Audit.Records.{ApprovalOutcome, expired, cancelled}
use agent_permission_guard.Approval.{
  PendingEntry, Service, find, put, remove, new_entry, request_hidden, show, publish, request,
  settle, verdict, decide, cancel_all, close, Event, requests, publishes, fires, cancels, decides,
  closes, or_same, step, run,
}

-- How many entries of an id wait, and how often its promise was resolved.
unfoldable pub waiting : Text → List PendingEntry → ℕ
waiting j [] = 0
waiting j (e ∷ es) = if text_eq e.id j then suc (waiting j es) else waiting j es

unfoldable pub settlements : Text → List (Text × ApprovalOutcome) → ℕ
settlements j [] = 0
settlements j ((id, o) ∷ rest) =
    if text_eq id j then suc (settlements j rest) else settlements j rest

-- A request either waits or is settled, and is settled once.
abbrev pub SettledOnce : Service → Type 0
SettledOnce s = (j : Text) → waiting j s.pending + settlements j s.settled ≤ 1

-- The id of a new request has not been settled before: `randomUUID` does not repeat itself.
abbrev pub IsFresh : Event → Service → Type 0
IsFresh (requests _ id _ _ _) s = settlements id s.settled ≡ 0
IsFresh _ s = Unit

unfoldable pub AllFresh : List Event → Service → Type 0
AllFresh [] s = Unit
AllFresh (e ∷ es) s = IsFresh e s × AllFresh es (step e s)

waiting-put :
    (j : Text) (new : PendingEntry) (es : List PendingEntry)
    → waiting j (put new es) ≤ waiting j es
      ⊎ ((waiting j (put new es) ≡ suc (waiting j es)) × (new.id ≡ j) × (waiting j es ≡ 0))
unfolding put waiting
waiting-put j new [] = ground (arith, text_eq_iff new.id j)
waiting-put j new (e ∷ es) =
    ground (
      arith,
      text_eq_iff new.id j,
      text_eq_iff e.id new.id,
      text_eq_iff e.id j,
      waiting-put j new es,
    )

waiting-remove :
    (j id : Text) (e : PendingEntry) (es : List PendingEntry)
    → find id es ≡ some e
    → waiting j (remove id es) + (if text_eq id j then 1 else 0) ≡ waiting j es
unfolding find remove waiting
waiting-remove j id e [] h = cc
waiting-remove j id e (x ∷ es) h =
    ground
      (arith, text_eq_iff x.id id, text_eq_iff x.id j, text_eq_iff id j, waiting-remove j id e es)

waiting-show : (j id : Text) (es : List PendingEntry) → waiting j (show id es) ≡ waiting j es
unfolding show waiting
waiting-show j id [] = refl
waiting-show j id (x ∷ es) = ground (arith, waiting-show j id es)

settle-SettledOnce :
    (id : Text) (outcome : ApprovalOutcome) (s : Service)
    → SettledOnce s
    → SettledOnce (settle id outcome s)
unfolding settle settlements
settle-SettledOnce id outcome s v j = elim (Option-cases (find id s.pending)) [
  | inl e ↦ ground (arith, v j)
  | inr (x, e) ↦ ground (arith, v j, waiting-remove j id x s.pending e)
]

hidden-SettledOnce :
    (id : Text) (arguments : Value) (now ttl : ℕ) (s : Service)
    → settlements id s.settled ≡ 0
    → SettledOnce s
    → SettledOnce (or_same s (request_hidden id arguments now ttl s))
unfolding request_hidden
hidden-SettledOnce id arguments now ttl s fresh v j =
    ground (arith, v j, waiting-put j (new_entry id arguments now ttl) s.pending)

publish-SettledOnce :
    (id : Text) (s : Service) → SettledOnce s → SettledOnce (or_same s (publish id s))
unfolding publish
publish-SettledOnce id s v j = ground (arith, v j, waiting-show j id s.pending)

request-SettledOnce :
    (id : Text) (arguments : Value) (now ttl : ℕ) (s : Service)
    → settlements id s.settled ≡ 0
    → SettledOnce s
    → SettledOnce (or_same s (request id arguments now ttl s))
unfolding request request_hidden publish
request-SettledOnce id arguments now ttl s fresh v j = ground (
  arith,
  v j,
  waiting-put j (new_entry id arguments now ttl) s.pending,
  waiting-show j id (put (new_entry id arguments now ttl) s.pending),
)

cancel_all-SettledOnce :
    (es : List PendingEntry) (s : Service) → SettledOnce s → SettledOnce (cancel_all es s)
unfolding cancel_all
cancel_all-SettledOnce [] s v = v
cancel_all-SettledOnce (e ∷ es) s v =
    cancel_all-SettledOnce es (settle e.id cancelled s) (settle-SettledOnce e.id cancelled s v)

decide-SettledOnce :
    (id : Text) (approves : Bool) (now : ℕ) (s : Service)
    → SettledOnce s
    → SettledOnce (decide id approves now s).0
unfolding decide
decide-SettledOnce id approves now s v j = ground (
  arith,
  v j,
  settle-SettledOnce id expired s v j,
  settle-SettledOnce id (verdict approves) s v j,
)

close-SettledOnce : (s : Service) → SettledOnce s → SettledOnce (close s)
unfolding close
close-SettledOnce s v j =
    ground (arith, v j, cancel_all-SettledOnce s.pending (record s { closed = true }) v j)

step-SettledOnce : (e : Event) (s : Service) → IsFresh e s → SettledOnce s → SettledOnce (step e s)
unfolding step
step-SettledOnce (requests true id arguments now ttl) s f v =
    hidden-SettledOnce id arguments now ttl s f v
step-SettledOnce (requests false id arguments now ttl) s f v =
    request-SettledOnce id arguments now ttl s f v
step-SettledOnce (publishes id) s f v = publish-SettledOnce id s v
step-SettledOnce (fires id) s f v = settle-SettledOnce id expired s v
step-SettledOnce (cancels id) s f v = settle-SettledOnce id cancelled s v
step-SettledOnce (decides id approves now) s f v = decide-SettledOnce id approves now s v
step-SettledOnce closes s f v = close-SettledOnce s v

-- Whatever happens to the service, the promise of a request is resolved at most once, and never
-- while the request waits: a timer that fires late, a second click and a cancellation change nothing.
pub run-SettledOnce :
    (es : List Event) (s : Service) → AllFresh es s → SettledOnce s → SettledOnce (run es s)
unfolding run AllFresh
run-SettledOnce [] s f v = v
run-SettledOnce (e ∷ es) s f v = run-SettledOnce es (step e s) f.1 (step-SettledOnce e s f.0 v)
