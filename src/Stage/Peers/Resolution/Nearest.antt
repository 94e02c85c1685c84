-- ===== src/Stage/Peers/Resolution/Nearest.antt =====
-- What `resolveNearest` finds, and the edges that come of it.
use agent_permission_guard.Base.{
  Bool-cases, Option-cases, or-true, not-not, or_left, or_right, length, All, In, Text, text_eq,
  text_eq_iff, text_mem, ℕ, zero, suc, ◌≡◌, refl, sym, ap, ◌∙◌, subst, ◌↔◌, inl, inr, true, not,
  false≢true, Option, none, some, List, [], ◌∷◌,
}
use agent_permission_guard.Base.Outcome.{ok, refuse-eq-ok, bind-eq-ok, ok-injective}
use agent_permission_guard.Stage.Peers.{
  PeerError, ordinary_resolution, ordinary_range, Range, fits, satisfies,
}
use agent_permission_guard.Stage.Peers.Paths.{child_path, parent_path}
use agent_permission_guard.Stage.Peers.Graph.{Graph, targets}
use agent_permission_guard.Stage.Peers.Graph.Sets.{mem-All, has_path}
use agent_permission_guard.Stage.Peers.Graph.Included.{IsWhole}
use agent_permission_guard.Stage.Peers.Resolution.{
  Ready, find_node, resolve_from, resolve_nearest, found, ordinary_targets, ordinary_edges,
}

-- The first that is found, from a context upwards.
pub data IsNearest (nodes : List Ready) (name : Text) (t : Ready) : Text → Type 0 where
  beside :
      {context : Text}
      → find_node (child_path context name) nodes ≡ some t
      → IsNearest nodes name t context
  higher :
      {context parent : Text}
      → find_node (child_path context name) nodes ≡ none
      → parent_path context ≡ some parent
      → IsNearest nodes name t parent
      → IsNearest nodes name t context

some-injective : {A : Type 0} {a b : A} → some a ≡ some b → a ≡ b
some-injective h = cc

pub found-some : (e : PeerError) (o : Option Ready) (t : Ready) → found e o ≡ ok t → o ≡ some t
found-some e none t h = absurd (cc)
found-some e (some n) t h = ap some (ok-injective h)

-- A path to which one of some dependencies leads, given what each name is resolved to.
abbrev pub Leads : (Text → Option Ready) → List (Text × Range) → Text → Type 0
Leads look es v =
    (name : Text) × (range : Range) × (t : Ready) × In (name, range) es
    × (look name ≡ some t)
    × (t.path ≡ v)

-- The paths are exactly those to which the dependencies lead.
abbrev pub AreLed : (Text → Option Ready) → List (Text × Range) → List Text → Type 0
AreLed look es ts = (v : Text) → (text_mem v ts ≡ true) ↔ Leads look es v

module _ (look : Text → Option Ready) where
  pub AreLed-nil : AreLed look [] []
  unfolding text_mem
  AreLed-nil v = (λ h. absurd (false≢true h), λ (_, _, _, i, _, _). absurd i)

  pub AreLed-cons :
      (name : Text) (range : Range) (t : Ready) (es : List (Text × Range)) (ts : List Text)
      → look name ≡ some t
      → AreLed look es ts
      → AreLed look ((name, range) ∷ es) (t.path ∷ ts)
  unfolding text_mem
  AreLed-cons name range t es ts at a v = (
    λ h. elim (or-true (text_eq v t.path) _ h) [
      | inl e ↦ (name, range, t, inl refl, at, sym ((text_eq_iff v t.path).0 e))
      | inr m ↦ let (other, r, u, i, k, same) = (a v).0 m in (other, r, u, inr i, k, same)
    ],
    λ (other, r, u, i, k, same). elim i [
      | inl e ↦
          let found : some t ≡ some u =
            sym at ∙ ap look (sym (ap (λ (x : Text × Range). x.0) e)) ∙ k in
          or_left (text_eq v t.path) _ (
            (text_eq_iff v t.path).1
              (sym (ap (λ (x : Ready). x.path) (some-injective found) ∙ same)))
      | inr j ↦ or_right (text_eq v t.path) _ ((a v).1 (other, r, u, j, k, same))
    ],
  )

module _ (nodes : List Ready) where
  resolve_from-IsNearest :
      (fuel : ℕ) (context name : Text) (t : Ready)
      → resolve_from fuel nodes context name ≡ some t
      → IsNearest nodes name t context
  unfolding resolve_from
  resolve_from-IsNearest zero context name t h = absurd (cc)
  resolve_from-IsNearest (suc fuel) context name t h =
      elim (Option-cases (find_node (child_path context name) nodes)) [
        | inr (u, e) ↦ beside (e ∙ rw (e, resolve_from) at h)
        | inl e ↦ elim (Option-cases (parent_path context)) [
          | inl f ↦ let k = rw (e, f, resolve_from) at h in absurd (cc)
          | inr (p, f) ↦
              higher e f (resolve_from-IsNearest fuel p name t (rw (e, f, resolve_from) at h))
        ]
      ]

  IsNearest-found :
      (name : Text) (t : Ready) (context : Text)
      → IsNearest nodes name t context
      → (p : Text) × (find_node p nodes ≡ some t)
  IsNearest-found name t context (beside h) = (child_path context name, h)
  IsNearest-found name t context (higher {parent} e f n) = IsNearest-found name t parent n

  -- What `resolveNearest` finds is the nearest: it stands beside the start or beside a path above it,
  -- and there is none beside the paths below that one.
  pub resolve_nearest-IsNearest :
      (start name : Text) (t : Ready)
      → resolve_nearest nodes start name ≡ some t
      → IsNearest nodes name t start
  unfolding resolve_nearest
  resolve_nearest-IsNearest start name t h =
      resolve_from-IsNearest (suc (length start)) start name t h

  pub resolve_nearest-found :
      (start name : Text) (t : Ready)
      → resolve_nearest nodes start name ≡ some t
      → (p : Text) × (find_node p nodes ≡ some t)
  resolve_nearest-found start name t h =
      IsNearest-found name t start (resolve_nearest-IsNearest start name t h)

  pub find-path :
      (p : Text) (ns : List Ready) (t : Ready) → find_node p ns ≡ some t → text_eq p t.path ≡ true
  unfolding find_node
  find-path p [] t h = absurd (cc)
  find-path p (n ∷ ns) t h = elim (Bool-cases (text_eq p n.path)) [
    | inl e ↦ subst (λ (x : Ready). text_eq p x.path ≡ true) (some-injective (rw e at h)) e
    | inr e ↦ find-path p ns t (rw e at h)
  ]

  -- A dependency is met by the nearest node of its name.
  abbrev pub IsOrdinaryMet : Text → Text × Range → Type 0
  IsOrdinaryMet path (name, range) =
      (t : Ready) × (resolve_nearest nodes path name ≡ some t) × (satisfies t.version range ≡ true)

  ordinary_targets-found :
      (path : Text) (es : List (Text × Range)) (ts : List Text)
      → ordinary_targets nodes path es ≡ ok ts
      → All (IsOrdinaryMet path) es
        × All (λ v. (t : Ready) × (p : Text) × (find_node p nodes ≡ some t) × (t.path ≡ v)) ts
        × AreLed (resolve_nearest nodes path) es ts
  unfolding ordinary_targets
  ordinary_targets-found path [] ts h =
      subst
        (λ xs.
          Unit {0}
          × All (λ v. (t : Ready) × (p : Text) × (find_node p nodes ≡ some t) × (t.path ≡ v)) xs
          × AreLed (resolve_nearest nodes path) [] xs)
        (ok-injective h) (tt, tt, AreLed-nil (resolve_nearest nodes path))
  ordinary_targets-found path ((name, range) ∷ es) ts h =
      let (t, one, h1) =
        bind-eq-ok (found ordinary_resolution (resolve_nearest nodes path name)) _ h in
      let (fits, h2) = refuse-eq-ok (not (satisfies t.version range)) ordinary_range _ h1 in
      let (others, rest, h3) = bind-eq-ok (ordinary_targets nodes path es) _ h2 in
      let at = found-some ordinary_resolution (resolve_nearest nodes path name) t one in
      let (p, there) = resolve_nearest-found path name t at in
      let (met, all_found, led) = ordinary_targets-found path es others rest in
      subst
        (λ xs.
          (IsOrdinaryMet path (name, range) × All (IsOrdinaryMet path) es)
          × All (λ v. (t : Ready) × (p : Text) × (find_node p nodes ≡ some t) × (t.path ≡ v)) xs
          × AreLed (resolve_nearest nodes path) ((name, range) ∷ es) xs)
        (ok-injective h3)
        (
          ((t, at, not-not _ fits), met),
          ((t, p, there, refl), all_found),
          AreLed-cons (resolve_nearest nodes path) name range t es others at led,
        )

  -- The edges of a list of nodes: as many as nodes, one for each path, to nodes that were found, and
  -- exactly to those that the dependencies of the node with this path lead to.
  pub record IsEdges (ns : List Ready) (g : Graph) : Type 0 where
    pub size : length g ≡ length ns
    pub has : (p : Text) (t : Ready) → find_node p ns ≡ some t → has_path g p ≡ true
    pub led :
        (u v : Text)
        → text_mem v (targets g u) ≡ true
        → (t : Ready) × (p : Text) × (find_node p nodes ≡ some t) × (t.path ≡ v)
    pub exact :
        (u v : Text)
        → (text_mem v (targets g u) ≡ true) ↔ (
            (n : Ready) × (find_node u ns ≡ some n)
            × Leads (resolve_nearest nodes n.path) n.ordinary v)
    pub met : All (λ (n : Ready). All (IsOrdinaryMet n.path) n.ordinary) ns

  pub ordinary_edges-IsEdges :
      (ns : List Ready) (g : Graph) → ordinary_edges nodes ns ≡ ok g → IsEdges ns g
  unfolding ordinary_edges text_mem find_node targets has_path
  ordinary_edges-IsEdges [] g h = subst (IsEdges []) (ok-injective h) (record {
    size = refl;
    has = λ p t k. absurd (cc);
    led = λ u v m. absurd (false≢true m);
    exact = λ u v. (λ m. absurd (false≢true m), λ (_, k, _). absurd (cc));
    met = tt;
  })
  ordinary_edges-IsEdges (n ∷ ns) g h =
      let (ts, one, h1) = bind-eq-ok (ordinary_targets nodes n.path n.ordinary) _ h in
      let (rest, others, h2) = bind-eq-ok (ordinary_edges nodes ns) _ h1 in
      let (met, all_found, led) = ordinary_targets-found n.path n.ordinary ts one in
      let v = ordinary_edges-IsEdges ns rest others in
      subst (IsEdges (n ∷ ns)) (ok-injective h2) (record {
        size = ap suc v.size;
        has = λ p t k. elim (Bool-cases (text_eq p n.path)) [
          | inl e ↦ or_left _ (has_path rest p) e
          | inr e ↦ or_right (text_eq p n.path) _ (v.has p t (rw e at k))
        ];
        led = λ u w m. elim (Bool-cases (text_eq u n.path)) [
          | inl e ↦
              mem-All (λ x. (t : Ready) × (p : Text) × (find_node p nodes ≡ some t) × (t.path ≡ x))
                ts w all_found (rw e at m)
          | inr e ↦ v.led u w (rw e at m)
        ];
        exact = λ u w. elim (Bool-cases (text_eq u n.path)) [
          | inl e ↦ (
            λ m. (n, rw e, (led w).0 (rw e at m)),
            λ (x, k, l).
                let same = some-injective (rw e at k) in
                rw e (
                  (led w).1 (
                    subst (λ (z : Ready). Leads (resolve_nearest nodes z.path) z.ordinary w)
                      (sym same) l)),
          )
          | inr e ↦ (
            λ m. let (x, k, l) = (v.exact u w).0 (rw e at m) in (x, rw e k, l),
            λ (x, k, l). rw e ((v.exact u w).1 (x, rw e at k, l)),
          )
        ];
        met = (met, v.met);
      })

  -- The edges of all nodes lead only to paths that have edges themselves.
  pub IsEdges-IsWhole : (g : Graph) → IsEdges nodes g → IsWhole g
  IsEdges-IsWhole g v u w m =
      let (t, p, at, same) = v.led u w m in
      let there = (text_eq_iff p t.path).0 (find-path p nodes t at) in
      ap (has_path g) (sym (there ∙ same)) ∙ v.has p t at

  pub resolve_nearest-has_path :
      (g : Graph)
      → IsEdges nodes g
      → (context name : Text) (t : Ready) → resolve_nearest nodes context name ≡ some t
      → has_path g t.path ≡ true
  resolve_nearest-has_path g v context name t h =
      let (p, at) = resolve_nearest-found context name t h in
      ap (has_path g) (sym ((text_eq_iff p t.path).0 (find-path p nodes t at))) ∙ v.has p t at
