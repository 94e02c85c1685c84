-- ===== src/Stage/Peers/Analysis/Sound.antt =====
-- What the analysis of the peers says of the nodes when it accepts them.
use agent_permission_guard.Stage.Peers.Paths.{child_path}
use agent_permission_guard.Base.{
  length, All, In, Text, text_mem, ◌≡◌, sym, ◌∙◌, ◌↔◌, inl, inr, Bool, true, ◌&&◌, not, Option,
  none, some, List, [], ◌∷◌,
}
use agent_permission_guard.Stage.Peers.{Range, satisfies}
use agent_permission_guard.Stage.Peers.Resolution.{Ready, find_node, resolve_nearest}
use agent_permission_guard.Stage.Peers.Resolution.Nearest.{IsNearest, AreLed, IsEdges}
use agent_permission_guard.Stage.Peers.Graph.{Graph, targets, Required}
use agent_permission_guard.Stage.Peers.Graph.Closure.{Reach}
use agent_permission_guard.Stage.Peers.Graph.Acyclic.{Below, direct, further}
use agent_permission_guard.Stage.Peers.Analysis.{Analysis}
use agent_permission_guard.Stage.Peers.Analysis.Walks.{IsMet, Needed, used, depended, demanded_by}

-- Two lists with the same paths.
abbrev pub IsSame : List Text → List Text → Type 0
IsSame ps qs = (p : Text) → text_mem p ps ≡ text_mem p qs

pub Needed-same :
    (nodes : List Ready) (g : Graph) (ps qs : List Text)
    → IsSame ps qs
    → (p : Text) → Needed nodes g ps p
    → Needed nodes g qs p
Needed-same nodes g ps qs s p (used h) = used (sym (s p) ∙ h)
Needed-same nodes g ps qs s p (depended {p = x} n h) = depended (Needed-same nodes g ps qs s x n) h
Needed-same nodes g ps qs s p (demanded_by {p = x} n at name range i f) =
    demanded_by (Needed-same nodes g ps qs s x n) at name range i f

pub Below-same :
    (g : Graph) (ps qs : List Text) (u v : Text) → IsSame ps qs → Below g ps u v → Below g qs u v
Below-same g ps qs u v s (direct n h) = direct (sym (s v) ∙ n) h
Below-same g ps qs u v s (further {v = w} b n h) =
    further (Below-same g ps qs u w s b) (sym (s v) ∙ n) h

pub All-IsMet-same :
    (nodes : List Ready) (n : Ready) (ps qs : List Text) (es : List (Text × (Bool × Range)))
    → IsSame ps qs
    → All (IsMet nodes ps n) es
    → All (IsMet nodes qs n) es
All-IsMet-same nodes n ps qs [] s m = tt
All-IsMet-same nodes n ps qs ((name, (optional, range)) ∷ es) s (inl m, ms) =
    (inl m, All-IsMet-same nodes n ps qs es s ms)
All-IsMet-same nodes n ps qs ((name, (optional, range)) ∷ es) s (inr (t, f, k, inl m), ms) =
    (inr (t, f, k, inl m), All-IsMet-same nodes n ps qs es s ms)
All-IsMet-same nodes n ps qs ((name, (optional, range)) ∷ es) s (inr (t, f, k, inr m), ms) =
    (inr (t, f, k, inr (sym (s t.path) ∙ m)), All-IsMet-same nodes n ps qs es s ms)

-- The node of a name at the top.
abbrev pub at_top : List Ready → Text → Option Ready
at_top nodes name = find_node (child_path [] name) nodes

-- A dependency of the root is met by a node at the top.
abbrev pub IsRootMet : List Ready → Text × Range → Type 0
IsRootMet nodes (name, range) =
    (t : Ready) × (at_top nodes name ≡ some t) × (satisfies t.version range ≡ true)

-- What holds of the nodes and the result of an analysis.
pub record IsAnalyzed (nodes : List Ready) (root : List (Text × Range)) (a : Analysis)
    : Type 0 where
  pub graph : Graph
  pub roots : List Text
  pub edges : IsEdges nodes nodes graph
  pub nearest :
      (start name : Text) (t : Ready)
      → resolve_nearest nodes start name ≡ some t
      → IsNearest nodes name t start
  pub unresolved :
      (start name : Text) (t : Ready)
      → resolve_nearest nodes start name ≡ none
      → ¬ IsNearest nodes name t start
  pub rooted : AreLed (at_top nodes) root roots
  pub roots_met : All (IsRootMet nodes) root
  pub produced : (p : Text) → (text_mem p a.production_paths ≡ true) ↔ Reach graph roots p
  pub closed :
      (u v : Text)
      → text_mem u a.required_paths ≡ true
      → text_mem v (targets graph u) ≡ true
      → text_mem v a.required_paths ≡ true
  pub includes :
      (p : Text) → text_mem p a.production_paths ≡ true → text_mem p a.required_paths ≡ true
  pub needed :
      (p : Text) → text_mem p a.required_paths ≡ true → Needed nodes graph a.production_paths p
  pub peers_met :
      (p : Text)
      → text_mem p a.required_paths ≡ true
      → (n : Ready) → find_node p nodes ≡ some n
      → All (IsMet nodes a.required_paths n) n.peers
  pub acyclic : (u : Text) → text_mem u a.required_paths ≡ true → ¬ Below graph a.required_paths u u
  pub roles :
      (n : Ready)
      → In n nodes
      → (b : Bool) → n.peer_flag ≡ some b
      → b ≡ (text_mem n.path a.required_paths && not (text_mem n.path a.production_paths))
  pub counted : length a.required_paths ≡ length nodes

abbrev pub nothing_required : Required
nothing_required = record { paths = []; queue = [] }
