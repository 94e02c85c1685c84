-- ===== src/Approval/Closing.antt =====
-- What `close` of approval/service.ts does to the requests that wait.
use agent_permission_guard.Base.{
  All, In, Text, text_eq_refl, ℕ, ◌≡◌, refl, ap, ◌∙◌, inl, inr, Bool, true, false, List, [], ◌∷◌,
  arith,
}
use agent_permission_guard.Json.{Value}
use agent_permission_guard.Audit.Records.{ApprovalOutcome, cancelled}
use agent_permission_guard.Approval.{
  PendingEntry, Service, service_closed, err, request_hidden, request, settle, cancel_all, close,
}

-- The promises that are resolved, the newest first.
pub cancellations :
    List PendingEntry → List (Text × ApprovalOutcome) → List (Text × ApprovalOutcome)
cancellations [] settled = settled
cancellations (e ∷ es) settled = cancellations es ((e.id, cancelled) ∷ settled)

abbrev with_pending : List PendingEntry → Bool → List (Text × ApprovalOutcome) → Service
with_pending es closed settled = record { pending = es; closed = closed; settled = settled }

settle-head :
    (e : PendingEntry) (es : List PendingEntry) (closed : Bool)
    (settled : List (Text × ApprovalOutcome))
    → settle e.id cancelled (with_pending (e ∷ es) closed settled)
      ≡ with_pending es closed ((e.id, cancelled) ∷ settled)
unfolding settle
settle-head e es closed settled = ground (arith, text_eq_refl e.id)

cancel_all-pending :
    (es : List PendingEntry) (closed : Bool) (settled : List (Text × ApprovalOutcome))
    → cancel_all es (with_pending es closed settled)
      ≡ with_pending [] closed (cancellations es settled)
unfolding cancel_all cancellations
cancel_all-pending [] closed settled = refl
cancel_all-pending (e ∷ es) closed settled =
    ap (cancel_all es) (settle-head e es closed settled)
    ∙ cancel_all-pending es closed ((e.id, cancelled) ∷ settled)

cancellations-old :
    (es : List PendingEntry) (settled : List (Text × ApprovalOutcome)) (x : Text × ApprovalOutcome)
    → In x settled
    → In x (cancellations es settled)
unfolding cancellations
cancellations-old [] settled x h = h
cancellations-old (e ∷ es) settled x h = cancellations-old es _ x (inr h)

cancellations-mem :
    (es : List PendingEntry) (settled : List (Text × ApprovalOutcome)) (e : PendingEntry)
    → In e es
    → In (e.id, cancelled) (cancellations es settled)
unfolding cancellations
cancellations-mem [] settled e m = absurd m
cancellations-mem (x ∷ es) settled e (inl h) =
    cancellations-old es _ (e.id, cancelled) (inl (ap (λ (y : PendingEntry). (y.id, cancelled)) h))
cancellations-mem (x ∷ es) settled e (inr m) = cancellations-mem es _ e m

All-of : {A : Type 0} {P : A → Type 0} (xs : List A) → ((x : A) → In x xs → P x) → All P xs
All-of [] f = tt
All-of (x ∷ xs) f = (f x (inl refl), All-of xs (λ y m. f y (inr m)))

-- Closing an open service cancels every request that waits, also the hidden ones, and leaves none;
-- what was settled stays so, and from then on every new request is refused.
pub close-settles :
    (s : Service)
    → s.closed ≡ false
    → ((close s).pending ≡ [])
      × All (λ (e : PendingEntry). In (e.id, cancelled) (close s).settled) s.pending
      × All (λ x. In x (close s).settled) s.settled
      × ((id : Text) (arguments : Value) (now ttl : ℕ)
          → request id arguments now ttl (close s) ≡ err service_closed)
unfolding close request request_hidden
close-settles s h =
    let all_done = cancel_all-pending s.pending true s.settled in
    (
      rw (h, all_done) refl,
      All-of s.pending (λ e m. rw (h, all_done) (cancellations-mem s.pending s.settled e m)),
      All-of s.settled (λ x m. rw (h, all_done) (cancellations-old s.pending s.settled x m)),
      λ id arguments now ttl. rw (h, all_done) refl,
    )
