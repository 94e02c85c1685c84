-- ===== src/Risk/Patterns.antt =====
-- The regular expressions of risk/scorer.ts as functions on code units. None has the flag `u`, so `i`
-- folds the ASCII letters only, and none has `m`, so `^` and `$` are the ends of the text.
use agent_permission_guard.Base.{
  ℕ, ◌+◌, Bool, true, false, ◌&&◌, ◌||◌, List, [], ◌∷◌, Text, codes, leb, ◌==◌, any, if◌then◌else◌,
}

pub lower : ℕ → ℕ
lower c = if leb b'A' c && leb c b'Z' then c + 32 else c

-- The class `[._-]`.
pub is_delimiter : ℕ → Bool
is_delimiter c = c == b'.' || c == b'_' || c == b'-'

-- A word of the pattern, in lower case, and then `(?:$|[._-])`.
pub word_here : Text → Text → Bool
unfolding lower is_delimiter
word_here [] [] = true
word_here [] (c ∷ s) = is_delimiter c
word_here (a ∷ w) [] = false
word_here (a ∷ w) (c ∷ s) = lower c == a && word_here w s

-- The search for `(?:^|[._-])(w1|…)(?:$|[._-])`; `open` says that a word may begin here.
pub find_word : List Text → Bool → Text → Bool
unfolding word_here is_delimiter
find_word words start [] = start && any (λ w. word_here w []) words
find_word words start (c ∷ s) =
    (start && any (λ w. word_here w (c ∷ s)) words) || find_word words (is_delimiter c) s

unfoldable pub has_word : List Text → Text → Bool
unfolding find_word
has_word words s = find_word words true s

pub prefix_here : Text → Text → Bool
unfolding lower
prefix_here [] s = true
prefix_here (a ∷ w) [] = false
prefix_here (a ∷ w) (c ∷ s) = lower c == a && prefix_here w s

-- The search for `(w1|…)` anywhere.
unfoldable pub contains_any : List Text → Text → Bool
unfolding prefix_here
contains_any words [] = any (λ w. prefix_here w []) words
contains_any words (c ∷ s) = any (λ w. prefix_here w (c ∷ s)) words || contains_any words s

pub equals_folded : Text → Text → Bool
unfolding lower
equals_folded [] [] = true
equals_folded [] (_ ∷ _) = false
equals_folded (_ ∷ _) [] = false
equals_folded (a ∷ w) (c ∷ s) = lower c == a && equals_folded w s

-- `^(w1|…)$`.
unfoldable pub is_any_of : List Text → Text → Bool
unfolding equals_folded
is_any_of words s = any (λ w. equals_folded w s) words

-- The alternatives of CREDENTIAL_KEY, with `[_-]?` written out.
abbrev pub credential_keys : List Text
credential_keys =
    codes "apikey"
    ∷ codes "api_key"
    ∷ codes "api-key"
    ∷ codes "credential"
    ∷ codes "password"
    ∷ codes "privatekey"
    ∷ codes "private_key"
    ∷ codes "private-key"
    ∷ codes "secret"
    ∷ codes "token"
    ∷ []

abbrev pub privileged_values : List Text
privileged_values =
    codes "main"
    ∷ codes "master"
    ∷ codes "prod"
    ∷ codes "production"
    ∷ codes "billing"
    ∷ codes "permission"
    ∷ codes "permissions"
    ∷ codes "role"
    ∷ codes "roles"
    ∷ codes "auth"
    ∷ []

abbrev pub broad_values : List Text
broad_values =
    codes "/"
    ∷ codes "*"
    ∷ codes "all"
    ∷ codes "allusers"
    ∷ codes "all_users"
    ∷ codes "all-users"
    ∷ codes "everyone"
    ∷ []
