-- ===== src/Audit/Chain/Tampering.antt =====
-- The chain that `appendEvent` builds verifies, and a chain that verifies is fixed by its last hash.
use agent_permission_guard.Base.{
  Bool-cases, length, All, Text, text_eq, text_eq_refl, text_eq_iff, ◌≡◌, refl, sym, ◌∙◌, subst,
  ◌≢◌, ◌⊎◌, inl, inr, true, false≢true, List, [], ◌∷◌, ◌++◌, arith,
}
use agent_permission_guard.Audit.Chain.{
  EventRow, genesis_hash, last_hash, newline, chained, append_event, verify_from, verify_hash_chain,
}

abbrev pub HasNoNewline : Text → Type 0
HasNoNewline s = All (λ c. c ≢ newline) s

-- A line ends at its first line feed.
line_unique :
    (p q s t : Text)
    → HasNoNewline p
    → HasNoNewline q
    → p ++ newline ∷ s ≡ q ++ newline ∷ t
    → (p ≡ q) × (s ≡ t)
line_unique [] [] s t h k e = (refl, ground arith)
line_unique [] (d ∷ q) s t h k e = absurd (k.0 (ground arith))
line_unique (c ∷ p) [] s t h k e = absurd (h.0 (ground arith))
line_unique (c ∷ p) (d ∷ q) s t h k e = ground (arith, line_unique p q s t h.1 k.1)

module _ (sha256 : Text → Text) where
  verify-append :
      (expected json : Text) (rows : List EventRow)
      → verify_from sha256 expected rows ≡ true
      → verify_from sha256 expected (rows ++ chained sha256 (last_hash expected rows) json ∷ [])
        ≡ true
  unfolding verify_from last_hash chained
  verify-append expected json [] h =
      ground (arith, text_eq_refl expected, text_eq_refl (sha256 (expected ++ newline ∷ json)))
  verify-append expected json (row ∷ rows) h =
      ground (arith, verify-append row.event_hash json rows)

  -- A chain that verifies still verifies when `appendEvent` has added any events.
  pub verify-append_event :
      (json : Text) (rows : List EventRow)
      → verify_hash_chain sha256 rows ≡ true
      → verify_hash_chain sha256 (append_event sha256 json rows) ≡ true
  unfolding verify_hash_chain append_event
  verify-append_event json rows h = verify-append genesis_hash json rows h

  row_of_verified :
      (expected : Text) (row : EventRow) (rows : List EventRow)
      → verify_from sha256 expected (row ∷ rows) ≡ true
      → (row.previous_hash ≡ expected)
        × (row.event_hash ≡ sha256 (expected ++ newline ∷ row.event_json))
        × (verify_from sha256 row.event_hash rows ≡ true)
  unfolding verify_from
  row_of_verified expected row rows h = ground (
    arith,
    text_eq_iff row.previous_hash expected,
    text_eq_iff (sha256 (row.previous_hash ++ newline ∷ row.event_json)) row.event_hash,
  )

  -- Two texts with one hash.
  abbrev pub Collision : Type 0
  Collision = (s : Text) × (t : Text) × (s ≢ t) × (sha256 s ≡ sha256 t)

  pub collision_or_equal : (s t : Text) → sha256 s ≡ sha256 t → Collision ⊎ (s ≡ t)
  collision_or_equal s t e = elim (Bool-cases (text_eq s t)) [
    | inl h ↦ inr ((text_eq_iff s t).0 h)
    | inr h ↦ inl (s, t, λ p. false≢true (sym h ∙ (text_eq_iff s t).1 p), e)
  ]

  -- What is relied on of SHA-256 in hexadecimal: it holds no line feed.
  module _ (no_newline : (s : Text) → HasNoNewline (sha256 s)) where
    verify_from_unique :
        (p q : Text) (rows others : List EventRow)
        → HasNoNewline p
        → HasNoNewline q
        → length rows ≡ length others
        → verify_from sha256 p rows ≡ true
        → verify_from sha256 q others ≡ true
        → last_hash p rows ≡ last_hash q others
        → Collision ⊎ ((p ≡ q) × (rows ≡ others))
    unfolding last_hash
    verify_from_unique p q [] [] hp hq n a b e = inr (e, refl)
    verify_from_unique p q [] (y ∷ others) hp hq n a b e = absurd (omega arith)
    verify_from_unique p q (x ∷ rows) [] hp hq n a b e = absurd (omega arith)
    verify_from_unique p q (x ∷ rows) (y ∷ others) hp hq n a b e =
        let (px, hx, vx) = row_of_verified p x rows a in
        let (py, hy, vy) = row_of_verified q y others b in
        first px hx py hy (
          verify_from_unique x.event_hash y.event_hash rows others
            (subst HasNoNewline (sym hx) (no_newline _))
            (subst HasNoNewline (sym hy) (no_newline _)) (omega arith) vx vy e)
      where
        Goal : Type 0
        Goal = Collision ⊎ ((p ≡ q) × (x ∷ rows ≡ y ∷ others))

        joined :
            x.previous_hash ≡ p
            → y.previous_hash ≡ q
            → x.event_hash ≡ y.event_hash
            → rows ≡ others
            → Collision ⊎ (p ++ newline ∷ x.event_json ≡ q ++ newline ∷ y.event_json)
            → Goal
        joined px py h r (inl c) = inl c
        joined px py h r (inr s) =
            let (pq, json) = line_unique p q x.event_json y.event_json hp hq s in
            inr (pq, ground arith)

        first :
            x.previous_hash ≡ p
            → x.event_hash ≡ sha256 (p ++ newline ∷ x.event_json)
            → y.previous_hash ≡ q
            → y.event_hash ≡ sha256 (q ++ newline ∷ y.event_json)
            → Collision ⊎ ((x.event_hash ≡ y.event_hash) × (rows ≡ others))
            → Goal
        first px hx py hy (inl c) = inl c
        first px hx py hy (inr (h, r)) = joined px py h r (collision_or_equal _ _ (sym hx ∙ h ∙ hy))

    -- Two chains of one length that verify and end in the same hash are the same, or they exhibit
    -- two texts with one hash: no event can be changed, replaced or moved without a change of the
    -- last hash.
    pub verify_hash_chain_unique :
        (rows others : List EventRow)
        → length rows ≡ length others
        → verify_hash_chain sha256 rows ≡ true
        → verify_hash_chain sha256 others ≡ true
        → last_hash genesis_hash rows ≡ last_hash genesis_hash others
        → Collision ⊎ (rows ≡ others)
    unfolding verify_hash_chain
    verify_hash_chain_unique rows others n a b e =
        elim (verify_from_unique genesis_hash genesis_hash rows others plain plain n a b e) [
          | inl c ↦ inl c
          | inr (_, r) ↦ inr r
        ]
      where
        plain : HasNoNewline genesis_hash
        plain = omega arith
