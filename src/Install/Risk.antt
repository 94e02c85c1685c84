-- ===== src/Install/Risk.antt =====
-- install/risk.ts: the signals of a package resolution and their score.
use agent_permission_guard.Base.{
  leb, ◌==◌, if◌then◌else◌, any, Text, ℕ, ◌+◌, min, Bool, true, false, not, List, [], ◌∷◌, ◌++◌,
}
use agent_permission_guard.Risk.{RiskBand, low, medium, high, critical}
use agent_permission_guard.Install.{
  AdvisorySeverity, high_severity, critical_severity, PackageMetadata, Resolution, resolved,
  unresolved, unavailable, contradictory,
}

pub data SignalCode : Type 0 where
  exact_version_unresolved metadata_unavailable metadata_contradictory : SignalCode
  has_lifecycle_scripts high_advisory critical_advisory is_possible_typosquat : SignalCode
  new_package new_publisher is_repository_missing is_provenance_inconsistent : SignalCode
  is_mutable_source limited_registry_evidence : SignalCode

-- `POINTS`
unfoldable pub code_points : SignalCode → ℕ
code_points exact_version_unresolved = 100
code_points metadata_unavailable = 50
code_points metadata_contradictory = 50
code_points has_lifecycle_scripts = 35
code_points high_advisory = 60
code_points critical_advisory = 75
code_points is_possible_typosquat = 50
code_points new_package = 25
code_points new_publisher = 25
code_points is_repository_missing = 20
code_points is_provenance_inconsistent = 20
code_points is_mutable_source = 45
code_points limited_registry_evidence = 25

-- The place of each code in the order of `localeCompare`.
unfoldable pub code_rank : SignalCode → ℕ
code_rank critical_advisory = 0
code_rank exact_version_unresolved = 1
code_rank high_advisory = 2
code_rank has_lifecycle_scripts = 3
code_rank limited_registry_evidence = 4
code_rank metadata_contradictory = 5
code_rank metadata_unavailable = 6
code_rank is_mutable_source = 7
code_rank new_package = 8
code_rank new_publisher = 9
code_rank is_possible_typosquat = 10
code_rank is_provenance_inconsistent = 11
code_rank is_repository_missing = 12

pub data EvidenceSource : Type 0 where
  from_resolution from_metadata from_advisory from_heuristic : EvidenceSource

pub record InstallSignal : Type 0 where
  pub code : SignalCode
  pub points : ℕ
  pub source : EvidenceSource

pub record InstallAssessment : Type 0 where
  pub score : ℕ
  pub band : RiskBand
  pub signals : List InstallSignal

unfoldable pub has_code : SignalCode → List InstallSignal → Bool
unfolding code_rank
has_code c = any (λ s. code_rank c == code_rank s.code)

unfoldable pub add_signal : SignalCode → EvidenceSource → List InstallSignal → List InstallSignal
unfolding has_code code_points
add_signal c source signals =
    if has_code c signals
    then signals
    else signals ++ record { code = c; points = code_points c; source = source } ∷ []

unfoldable pub add_if : Bool → SignalCode → EvidenceSource → List InstallSignal → List InstallSignal
unfolding add_signal
add_if b c source signals = if b then add_signal c source signals else signals

abbrev pub is_empty : List Text → Bool
is_empty [] = true
is_empty (_ ∷ _) = false

abbrev pub is_high : AdvisorySeverity → Bool
is_high high_severity = true
is_high _ = false

abbrev pub is_critical : AdvisorySeverity → Bool
is_critical critical_severity = true
is_critical _ = false

unfoldable pub metadata_signals : PackageMetadata → List InstallSignal
unfolding add_if
metadata_signals m = add_if (not m.evidence_complete) limited_registry_evidence from_metadata (
    add_if m.mutable_source is_mutable_source from_resolution (
      add_if m.provenance_inconsistent is_provenance_inconsistent from_metadata (
        add_if m.repository_missing is_repository_missing from_metadata (
          add_if m.publisher_is_new new_publisher from_metadata (
            add_if m.package_is_new new_package from_metadata (
              add_if m.possible_typosquat is_possible_typosquat from_heuristic (
                add_if (any (λ a. is_critical a.severity) m.advisories) critical_advisory
                  from_advisory
                  (add_if (any (λ a. is_high a.severity) m.advisories) high_advisory from_advisory (
                    add_if (not (is_empty m.lifecycle_scripts)) has_lifecycle_scripts from_metadata
                      [])))))))))

-- The signals in the order in which the map holds them.
unfoldable pub install_signals : Resolution → List InstallSignal
unfolding metadata_signals add_signal
install_signals (resolved m) = metadata_signals m
install_signals (unresolved _) = add_signal exact_version_unresolved from_resolution []
install_signals (unavailable _) = add_signal metadata_unavailable from_resolution []
install_signals (contradictory _) = add_signal metadata_contradictory from_resolution []

pub total_points : List InstallSignal → ℕ
total_points [] = 0
total_points (s ∷ ss) = s.points + total_points ss

unfoldable pub insert_code : InstallSignal → List InstallSignal → List InstallSignal
unfolding code_rank
insert_code s [] = s ∷ []
insert_code s (t ∷ ts) =
    let rest = insert_code s ts in
    if leb (code_rank s.code) (code_rank t.code) then s ∷ t ∷ ts else t ∷ rest

unfoldable pub sort_codes : List InstallSignal → List InstallSignal
unfolding insert_code
sort_codes [] = []
sort_codes (s ∷ ss) = insert_code s (sort_codes ss)

unfoldable pub install_band : ℕ → RiskBand
install_band score =
    if leb 75 score
    then critical
    else if leb 50 score
    then high
    else if leb 25 score
    then medium
    else low

-- `assessmentFor`
unfoldable pub assessment_for : List InstallSignal → InstallAssessment
unfolding sort_codes total_points install_band
assessment_for signals =
    let ordered = sort_codes signals in
    let score = min 100 (total_points ordered) in
    record { score = score; band = install_band score; signals = ordered }

unfoldable pub score_install_risk : Resolution → InstallAssessment
unfolding assessment_for install_signals
score_install_risk r = assessment_for (install_signals r)
