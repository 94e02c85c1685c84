-- ===== src/Stage/Peers/Nodes.antt =====
-- stage/peer-dependency-semantics.ts: the nodes of a lockfile, read from JSON. An `unknown` of the
-- source is a JSON value, or none where the field is not there; a JSON object has each key once.
use agent_permission_guard.Base.{
  ltb, if◌then◌else◌, length, any, Text, codes, text_eq, text_mem, sort_by, text_compare,
  utf8_length, Bool, true, false, ◌&&◌, ◌||◌, not, Option, none, some, List, [], ◌∷◌, ◌++◌,
}
use agent_permission_guard.Base.Outcome.{ok, throws, refuse, ◌>>=◌, ◌>>◌}
use agent_permission_guard.Json.{Value, bool, text, object, Items, nil, cons, Fields, end, entry}
use agent_permission_guard.Install.Parser.{is_package_name}
use agent_permission_guard.Stage.Peers.{
  PeerError, version_invalid, budget_exceeded, shape_invalid, peer_shape_invalid, peer_meta_invalid,
  role_type_invalid, prohibited_role, prohibited_field, overlap, Checked, Version, parse_version,
}
use agent_permission_guard.Stage.Peers.Paths.{valid_path, depth, path_name}

abbrev pub Entries : Type 0
Entries = List (Text × Value)

-- `Object.entries`
abbrev pub entries_of : Fields → Entries
entries_of end = []
entries_of (entry key v fs) = (key, v) ∷ entries_of fs

abbrev pub items_of : Items → List Value
items_of nil = []
items_of (cons v vs) = v ∷ items_of vs

unfoldable pub field : {A : Type 0} → Text → List (Text × A) → Option A
field key [] = none
field key ((k, v) ∷ es) = let rest = field key es in if text_eq key k then some v else rest

abbrev pub keys : {A : Type 0} → List (Text × A) → List Text
keys [] = []
keys ((k, v) ∷ es) = k ∷ keys es

-- `sorted`
abbrev pub by_key : {A : Type 0} → List (Text × A) → List (Text × A)
by_key = sort_by (λ a b. text_compare a.0 b.0)

-- `ownRecord`
abbrev pub own_record : PeerError → Option Value → Checked Entries
own_record e (some (object fs)) = ok (entries_of fs)
own_record e _ = throws e

-- A record that may be left out.
abbrev pub own_record_or_empty : PeerError → Option Value → Checked Entries
own_record_or_empty e none = ok []
own_record_or_empty e (some v) = own_record e (some v)

-- `boundedString`
abbrev pub bounded_string : PeerError → Option Value → Checked Text
bounded_string e (some (text s)) = refuse (ltb 256 (utf8_length s)) e >> ok s
bounded_string e _ = throws e

-- `packageName`
unfoldable pub package_name : Option Value → Checked Text
unfolding is_package_name utf8_length
package_name v = do
  name ← bounded_string shape_invalid v
  refuse (not (is_package_name name)) shape_invalid
  ok name

-- `stringMap`
unfoldable pub string_map : PeerError → Entries → Checked (List (Text × Text))
unfolding utf8_length
string_map e [] = ok []
string_map e ((key, v) ∷ es) = do
  s ← bounded_string e (some v)
  rest ← string_map e es
  ok ((key, s) ∷ rest)

pub record Peer : Type 0 where
  pub range : Text
  pub optional : Bool

-- `Node`; of the flags only `peer` is read behind the checks.
pub record Node : Type 0 where
  pub path : Text
  pub name : Text
  pub version : Version
  pub dependencies : List (Text × Text)
  pub peers : List (Text × Peer)
  pub peer_flag : Option Bool

abbrev pub role_flags : List Text
role_flags =
    codes "dev"
    ∷ codes "optional"
    ∷ codes "peer"
    ∷ codes "devOptional"
    ∷ codes "link"
    ∷ codes "inBundle"
    ∷ []

abbrev pub field_rejections : List Text
field_rejections =
    codes "hasInstallScript"
    ∷ codes "optionalDependencies"
    ∷ codes "bundleDependencies"
    ∷ codes "bundledDependencies"
    ∷ codes "os"
    ∷ codes "cpu"
    ∷ []

abbrev pub node_keys : List Text
node_keys =
    codes "installPath"
    ∷ codes "packageName"
    ∷ codes "version"
    ∷ codes "dependencies"
    ∷ codes "peerDependencies"
    ∷ codes "peerDependenciesMeta"
    ∷ (role_flags ++ field_rejections)

unfoldable pub check_flag : Text → Option Value → Checked (Unit {0})
unfolding text_eq
check_flag key none = ok tt
check_flag key (some (bool b)) = refuse (b && not (text_eq key (codes "peer"))) prohibited_role
check_flag key (some _) = throws role_type_invalid

unfoldable pub check_flags : Entries → List Text → Checked (Unit {0})
unfolding check_flag field
check_flags raw [] = ok tt
check_flags raw (key ∷ rest) = check_flag key (field key raw) >> check_flags raw rest

abbrev pub flag_of : Option Value → Option Bool
flag_of (some (bool b)) = some b
flag_of _ = none

-- `optional` of a peer's descriptor.
unfoldable pub optional_of : Option Value → Checked Bool
unfolding field text_eq
optional_of none = ok false
optional_of (some v) = do
  descriptor ← own_record peer_meta_invalid (some v)
  refuse (any (λ k. not (text_eq k (codes "optional"))) (keys descriptor)) peer_meta_invalid
  elim (field (codes "optional") descriptor) [
    | none ↦ ok false
    | some (bool b) ↦ ok b
    | some other ↦ throws peer_meta_invalid
  ]

unfoldable pub peers_of :
    Entries → List (Text × Text) → List (Text × Text) → Checked (List (Text × Peer))
unfolding package_name optional_of
peers_of meta dependencies [] = ok []
peers_of meta dependencies ((name, range) ∷ rest) = do
  checked ← package_name (some (text name))
  refuse (text_mem name (keys dependencies)) overlap
  optional ← optional_of (field name meta)
  others ← peers_of meta dependencies rest
  ok ((name, record { range = range; optional = optional }) ∷ others)

abbrev is_left_out : Option Value → Bool
is_left_out none = true
is_left_out (some v) = false

-- `peerMap`
unfoldable pub peer_map :
    Option Value → Option Value → List (Text × Text) → Checked (List (Text × Peer))
unfolding string_map peers_of text_mem
peer_map raw_peers raw_meta dependencies = do
  refuse (is_left_out raw_peers && not (is_left_out raw_meta)) peer_meta_invalid
  listed ← own_record_or_empty peer_shape_invalid raw_peers
  peers ← string_map peer_shape_invalid listed
  refuse (ltb 64 (length peers)) budget_exceeded
  meta ← own_record_or_empty peer_meta_invalid raw_meta
  output ← peers_of meta dependencies (by_key peers)
  refuse (any (λ k. not (text_mem k (keys peers))) (keys meta)) peer_meta_invalid
  ok output

-- `parseNode`
unfoldable pub parse_node : Entries → Checked Node
unfolding valid_path depth path_name parse_version check_flags string_map peer_map package_name
    field text_mem utf8_length text_eq
parse_node raw = do
  refuse (any (λ k. not (text_mem k node_keys)) (keys raw)) shape_invalid
  path ← bounded_string shape_invalid (field (codes "installPath") raw)
  name ← package_name (field (codes "packageName") raw)
  refuse (not (valid_path path) || ltb 512 (utf8_length path) || ltb 32 (depth path)) shape_invalid
  refuse (not (text_eq (path_name path) name)) shape_invalid
  value ← bounded_string version_invalid (field (codes "version") raw)
  version ← parse_version version_invalid value
  check_flags raw role_flags
  refuse (any (λ k. text_mem k (keys raw)) field_rejections) prohibited_field
  listed ← own_record_or_empty shape_invalid (field (codes "dependencies") raw)
  dependencies ← string_map shape_invalid listed
  peers ←
      peer_map (field (codes "peerDependencies") raw) (field (codes "peerDependenciesMeta") raw)
        dependencies
  ok (record {
    path = path;
    name = name;
    version = version;
    dependencies = dependencies;
    peers = peers;
    peer_flag = flag_of (field (codes "peer") raw);
  })
