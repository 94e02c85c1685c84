-- ===== src/Stage/Archive/Listings.antt =====
-- Lists of accepted entries: their portable paths, how often a path is listed, their sizes.
use agent_permission_guard.Base.{
  if◌then◌else◌, length, any, all, All, All-In, In-All, Text, codes, text_eq, text_mem, insert_by,
  sort_by, mem-sort, split_on, ℕ, suc, ◌+◌, Ordering, ◌≡◌, refl, Bool, true, false, ◌||◌, not, List,
  [], ◌∷◌, ◌++◌, arith,
}
use agent_permission_guard.Stage.Archive.{ValidatedEntry, is_file, is_dots}

-- A segment that names a place below its parent, and is none that npm would read.
abbrev pub is_plain : Text → Bool
is_plain s = not (is_dots s || text_eq (codes "node_modules") s || text_eq (codes ".npmrc") s)

abbrev pub IsPortable : ValidatedEntry → Type 0
IsPortable v = all is_plain (split_on 0x2f v.relative_path) ≡ true

-- How often a path is listed.
unfoldable pub listings : Text → List ValidatedEntry → ℕ
listings p [] = 0
listings p (v ∷ vs) = (if text_eq p v.relative_path then 1 else 0) + listings p vs

unfoldable pub total_size : List ValidatedEntry → ℕ
total_size [] = 0
total_size (v ∷ vs) = (if is_file v.kind then v.size else 0) + total_size vs

pub listings-append :
    (p : Text) (vs ws : List ValidatedEntry) → listings p (vs ++ ws) ≡ listings p vs + listings p ws
unfolding listings
listings-append p [] ws = omega arith
listings-append p (v ∷ vs) ws = ground (arith, listings-append p vs ws)

pub total_size-append :
    (vs ws : List ValidatedEntry) → total_size (vs ++ ws) ≡ total_size vs + total_size ws
unfolding total_size
total_size-append [] ws = omega arith
total_size-append (v ∷ vs) ws = ground (arith, total_size-append vs ws)

-- Sorting keeps what is listed.
module _ (cmp : ValidatedEntry → ValidatedEntry → Ordering) where
  listings-insert :
      (p : Text) (v : ValidatedEntry) (vs : List ValidatedEntry)
      → listings p (insert_by cmp v vs) ≡ listings p (v ∷ vs)
  unfolding listings insert_by
  listings-insert p v [] = refl
  listings-insert p v (w ∷ vs) = ground (arith, listings-insert p v vs)

  pub listings-sort :
      (p : Text) (vs : List ValidatedEntry) → listings p (sort_by cmp vs) ≡ listings p vs
  unfolding listings sort_by
  listings-sort p [] = refl
  listings-sort p (v ∷ vs) = omega (arith, listings-insert p v (sort_by cmp vs), listings-sort p vs)

  length-insert :
      (v : ValidatedEntry) (vs : List ValidatedEntry)
      → length (insert_by cmp v vs) ≡ suc (length vs)
  unfolding insert_by
  length-insert v [] = refl
  length-insert v (w ∷ vs) = ground (arith, length-insert v vs)

  pub length-sort : (vs : List ValidatedEntry) → length (sort_by cmp vs) ≡ length vs
  unfolding sort_by
  length-sort [] = refl
  length-sort (v ∷ vs) = omega (arith, length-insert v (sort_by cmp vs), length-sort vs)

  total_size-insert :
      (v : ValidatedEntry) (vs : List ValidatedEntry)
      → total_size (insert_by cmp v vs) ≡ total_size (v ∷ vs)
  unfolding total_size insert_by
  total_size-insert v [] = refl
  total_size-insert v (w ∷ vs) = ground (arith, total_size-insert v vs)

  pub total_size-sort : (vs : List ValidatedEntry) → total_size (sort_by cmp vs) ≡ total_size vs
  unfolding total_size sort_by
  total_size-sort [] = refl
  total_size-sort (v ∷ vs) = omega (arith, total_size-insert v (sort_by cmp vs), total_size-sort vs)

  pub All-sort :
      (P : ValidatedEntry → Type 0) (vs : List ValidatedEntry) → All P vs → All P (sort_by cmp vs)
  All-sort P vs h = In-All P (sort_by cmp vs) (λ v m. All-In P vs h ((mem-sort cmp v vs).0 m))

-- Segments that are no dots, and none of the names that npm reads.
pub plain-segments :
    (segments : List Text)
    → any is_dots segments ≡ false
    → (text_mem (codes "node_modules") segments || text_mem (codes ".npmrc") segments) ≡ false
    → all is_plain segments ≡ true
unfolding text_mem
plain-segments [] h k = refl
plain-segments (s ∷ ss) h k = ground (arith, plain-segments ss)
