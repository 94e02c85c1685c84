-- ===== src/Approval/Deciding.antt =====
-- Who can approve a request, and until when.
use agent_permission_guard.Base.{
  leb, Bool-cases, Option-cases, In, Text, ℕ, ◌<◌, ◌≡◌, ◌⊎◌, inl, inr, Bool, true, false, some,
  List, [], ◌∷◌, arith,
}
use agent_permission_guard.Audit.Records.{ApprovalOutcome, approved, denied, expired, cancelled}
use agent_permission_guard.Approval.{
  PendingEntry, Service, find, request_hidden, publish, request, settle, decide, cancel_all, close,
  Event, requests, publishes, fires, cancels, decides, closes, step,
}

abbrev pub IsApproved : Text → Service → Type 0
IsApproved id s = In (id, approved) s.settled

settle-IsApproved :
    (j id : Text) (outcome : ApprovalOutcome) (s : Service)
    → IsApproved j (settle id outcome s)
    → IsApproved j s ⊎ ((j ≡ id) × (outcome ≡ approved))
unfolding settle
settle-IsApproved j id outcome s h = ground arith

cancel_all-IsApproved :
    (j : Text) (es : List PendingEntry) (s : Service)
    → IsApproved j (cancel_all es s)
    → IsApproved j s
unfolding cancel_all
cancel_all-IsApproved j [] s h = h
cancel_all-IsApproved j (e ∷ es) s h = ground (
  arith,
  cancel_all-IsApproved j es (settle e.id cancelled s),
  settle-IsApproved j e.id cancelled s,
)

-- How an approval comes about.
abbrev pub ByDecision : Text → Event → Service → Type 0
ByDecision j ev s =
    (now : ℕ) × (entry : PendingEntry) × (ev ≡ decides j true now)
    × (find j s.pending ≡ some entry)
    × (entry.visible ≡ true)
    × (now < entry.expires_at)

decide-IsApproved :
    (j id : Text) (approves : Bool) (now : ℕ) (s : Service)
    → IsApproved j (decide id approves now s).0
    → IsApproved j s ⊎ ByDecision j (decides id approves now) s
unfolding decide
decide-IsApproved j id false now s h =
    inl (ground (arith, settle-IsApproved j id denied s, settle-IsApproved j id expired s))
decide-IsApproved j id true now s h = elim (Option-cases (find id s.pending)) [
  | inl e ↦ inl (ground arith)
  | inr (entry, e) ↦ elim (Bool-cases entry.visible) [
    | inr hidden ↦ inl (ground arith)
    | inl shown ↦ elim (Bool-cases (leb entry.expires_at now)) [
      | inl late ↦ inl (ground (arith, settle-IsApproved j id expired s))
      | inr live ↦
          let decided : IsApproved j (settle id approved s) = ground arith in
          elim (settle-IsApproved j id approved s decided) [
            | inl old ↦ inl old
            | inr (same_id, _) ↦
                inr (now, entry, ground arith, ground arith, shown, ground (arith, live))
          ]
    ]
  ]
]

-- A request becomes approved only by a decision to approve it, made while it is pending, published
-- and not yet expired: no timer, cancellation, publication or shutdown approves.
pub step-IsApproved :
    (j : Text) (ev : Event) (s : Service)
    → IsApproved j (step ev s)
    → IsApproved j s ⊎ ByDecision j ev s
unfolding step request_hidden request publish close
step-IsApproved j (requests true id arguments now ttl) s h = inl (ground arith)
step-IsApproved j (requests false id arguments now ttl) s h = inl (ground arith)
step-IsApproved j (publishes id) s h = inl (ground arith)
step-IsApproved j (fires id) s h = inl (ground (arith, settle-IsApproved j id expired s))
step-IsApproved j (cancels id) s h = inl (ground (arith, settle-IsApproved j id cancelled s))
step-IsApproved j (decides id approves now) s h = decide-IsApproved j id approves now s h
step-IsApproved j closes s h =
    inl (ground (arith, cancel_all-IsApproved j s.pending (record s { closed = true })))
