-- ===== src/Verification/Labels.antt =====
-- web/src/lib/verification.ts: the labels of a record and of a status.
use corpershub_application.Base.{
  Text, ◌++◌, ◌==◌, if◌then◌else◌, map, filter, not, is_nil, take, drop, text_eq, codes,
  join_spaces,
}
use corpershub_application.Identifiers.{Casing}
use corpershub_application.Directory.{split_on}
use corpershub_application.Verification.{Lowering}

-- `s.replaceAll("_", " ")`
abbrev pub with_spaces : Text → Text
with_spaces s = map (λ c. if c == b'_' then 32 else c) s

module _ (casing : Casing) (lowering : Lowering) where
  unfoldable pub format_verification_type : Text → Text
  format_verification_type type =
      let lower = lowering.to_lower_case type in
      if text_eq lower (codes "biodata")
      then codes "BIODATA"
      else if text_eq lower (codes "nin")
      then codes "NIN"
      else if text_eq lower (codes "callup")
      then codes "NYSC CALL-UP"
      else if text_eq lower (codes "state_code")
      then codes "NYSC STATE CODE"
      else if text_eq lower (codes "profile")
      then codes "PROFILE"
      else casing.to_upper_case (with_spaces type)

  abbrev segment_label : Text → Text
  segment_label segment =
      casing.to_upper_case (take 1 segment) ++ lowering.to_lower_case (drop 1 segment)

  unfoldable pub format_verification_status : Text → Text
  format_verification_status status =
      let lower = lowering.to_lower_case status in
      if text_eq lower (codes "unsubmitted")
      then codes "Unsubmitted"
      else if text_eq lower (codes "under_review")
      then codes "Under Review"
      else join_spaces (
          map segment_label
            (filter (λ segment. not (is_nil segment)) (split_on 32 (with_spaces status))))
