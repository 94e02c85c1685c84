-- ===== src/Stage/Peers/Paths.antt =====
-- stage/peer-dependency-semantics.ts: install paths, `node_modules/a/node_modules/@b/c`, by their
-- segments.
use agent_permission_guard.Base.{
  ◌==◌, if◌then◌else◌, length, any, Text, codes, text_eq, split_on, join_with, is_empty_text,
  begins_with, ℕ, Bool, true, false, ◌&&◌, ◌||◌, not, Option, none, some, List, [], ◌∷◌, ◌++◌,
}

abbrev pub node_modules : Text
node_modules = codes "node_modules"

abbrev pub slash : ℕ
slash = 0x2f

-- `@[^/]+`
abbrev pub is_scope : Text → Bool
is_scope (c ∷ d ∷ s) = c == 0x40
is_scope _ = false

-- `node_modules\/(?:@[^/]+\/)?[^/]+` as the whole of the segments.
abbrev pub is_package : List Text → Bool
is_package (d ∷ name ∷ []) = text_eq d node_modules && not (is_empty_text name)
is_package (d ∷ scope ∷ name ∷ []) =
    text_eq d node_modules && is_scope scope && not (is_empty_text name)
is_package _ = false

-- One or more packages, each below the one before it: what is left behind a package is none or more.
unfoldable pub are_packages : List Text → Bool
are_packages [] = true
are_packages (d ∷ []) = false
are_packages (d ∷ name ∷ []) = text_eq d node_modules && not (is_empty_text name)
are_packages (d ∷ name ∷ other ∷ rest) =
    let behind_name = are_packages (other ∷ rest) in
    let behind_scoped = are_packages rest in
    text_eq d node_modules
    && ((not (is_empty_text name) && behind_name)
        || (is_scope name && not (is_empty_text other) && behind_scoped))

-- `validPath`
unfoldable pub valid_path : Text → Bool
unfolding split_on are_packages
valid_path path = is_empty_text path || are_packages (split_on slash path)

-- `depth`
unfoldable pub depth : Text → ℕ
unfolding split_on
depth path = if is_empty_text path then 0 else length (split_on slash path)

-- `childPath`
unfoldable pub child_path : Text → Text → Text
child_path context name =
    if is_empty_text context
    then node_modules ++ slash ∷ name
    else context ++ slash ∷ (node_modules ++ slash ∷ name)

abbrev onto : Text → Option (List Text) → Option (List Text)
onto s none = none
onto s (some ss) = some (s ∷ ss)

-- The segments before the package at the end.
unfoldable pub before_package : List Text → Option (List Text)
before_package [] = none
before_package (s ∷ ss) =
    let rest = before_package ss in if is_package (s ∷ ss) then some [] else onto s rest

-- The units that `.` of a regular expression does not match.
abbrev pub is_line_end : ℕ → Bool
is_line_end c = c == 0x0a || c == 0x0d || c == 0x2028 || c == 0x2029

abbrev pub matched : Option (List Text) → Option Text
matched none = none
matched (some ss) = if any is_line_end (join_with slash ss) then none else some (join_with slash ss)

-- `parentPath`; a package at the top is below the root, which is ''.
unfoldable pub parent_path : Text → Option Text
unfolding split_on before_package join_with
parent_path path =
    if is_empty_text path
    then none
    else if is_package (split_on slash path)
    then some []
    else matched (before_package (split_on slash path))

abbrev pub last_name : List Text → Text
last_name [] = []
last_name (s ∷ []) = s
last_name (scope ∷ name ∷ []) =
    if begins_with (codes "@") scope then scope ++ slash ∷ name else name
last_name (s ∷ t ∷ u ∷ ss) = last_name (t ∷ u ∷ ss)

-- `pathName`
unfoldable pub path_name : Text → Text
unfolding split_on begins_with
path_name path = last_name (split_on slash path)
