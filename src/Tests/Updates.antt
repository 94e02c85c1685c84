-- ===== src/Tests/Updates.antt =====
-- Updates of the live policy on concrete inputs.
use agent_permission_guard.Base.{
  Text, codes, text_eq, text_eq_iff, ◌≡◌, refl, ◌≢◌, ◌⊎◌, true, false≢true, Option, some, [], ◌∷◌,
}
use agent_permission_guard.Policy.Schema.{PolicyDocument}
use agent_permission_guard.Policy.Live.{
  Writing, Disk, Controller, conflict_in_memory, Updated, open_controller, refused, update,
}
use agent_permission_guard.Policy.Live.Updates.{
  IsCoherent, IsInstalled, IsRefused, IsSaved, update-all_or_nothing, update_with, written_outside,
  happen_all, open-happen_all-IsCoherent, update-update_stale,
}

abbrev empty_policy : PolicyDocument
empty_policy = record { approval_ttl_seconds = 60; tool_timeout_seconds = 30; rules = [] }

-- A reader that takes any text for the empty policy, and a digest that is the text.
abbrev read_any : Text → Option PolicyDocument
read_any t = some empty_policy

abbrev same_digest : Text → Text
same_digest t = t

abbrev all_well : Writing
all_well = record {
  reads = true;
  opens = true;
  writes = true;
  syncs = true;
  closes = true;
  renames = true;
  unlinks = true;
  partial = [];
}

abbrev first_disk : Disk
first_disk = record { file = codes "a"; temporaries = [] }

abbrev first_controller : Controller
first_controller = record { policy = empty_policy; source = codes "a"; revision = codes "a" }

abbrev first_update : Updated
first_update =
    update read_any same_digest all_well (codes "b") (codes "a") first_controller first_disk

update-all_or_nothing_example :
    IsSaved read_any same_digest all_well
      (codes "a")
      (codes "b")
      first_controller
      first_disk
      first_update
    ⊎ IsRefused read_any same_digest all_well
        (codes "a")
        (codes "b")
        first_controller
        first_disk
        first_update
update-all_or_nothing_example =
    update-all_or_nothing read_any same_digest all_well (codes "b") (codes "a") first_controller
      first_disk

open-happen_all-IsCoherent_example :
    IsCoherent read_any same_digest
      (happen_all read_any same_digest
        (written_outside (codes "c") ∷ update_with all_well (codes "b") (codes "a") ∷ [])
        (first_controller, first_disk)).0
unfolding open_controller
open-happen_all-IsCoherent_example =
    open-happen_all-IsCoherent read_any same_digest
      (written_outside (codes "c") ∷ update_with all_well (codes "b") (codes "a") ∷ []) first_disk
      first_controller refl

first-IsInstalled :
    IsInstalled read_any same_digest
      (codes "a")
      (codes "b")
      first_controller
      first_disk
      first_update
unfolding update text_eq
first-IsInstalled = record {
  seen = refl;
  saved = refl;
  current = refl;
  coherent = record { parsed = refl; hashed = refl };
  expected_revision = refl;
  same_on_disk = refl;
}

b≢a : codes "b" ≢ codes "a"
unfolding text_eq
b≢a h = false≢true ((text_eq_iff (codes "b") (codes "a")).1 h)

update-update_stale_example :
    update read_any same_digest all_well
      (codes "d")
      (codes "a")
      first_update.controller
      (record first_update.disk { file = codes "b" })
    ≡ refused read_any same_digest conflict_in_memory first_update.controller
        (record first_update.disk { file = codes "b" })
update-update_stale_example =
    update-update_stale read_any same_digest all_well all_well (codes "b") (codes "d") (codes "a")
      (codes "b") first_controller first_disk first-IsInstalled b≢a
