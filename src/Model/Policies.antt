-- ===== src/Model/Policies.antt =====
-- model/types.go: the policies for pulling images.
use theo_forge.Prelude.{◌||◌, Text, text, if◌then◌else◌, ◌==◌, Result, ok, err, invalid_type}

abbrev pub pull_always : Text
pull_always = text "Always"

abbrev pub pull_never : Text
pull_never = text "Never"

abbrev pub pull_if_not_present : Text
pull_if_not_present = text "IfNotPresent"

unfoldable pub parse_image_pull_policy : Text → Result Text
parse_image_pull_policy s =
    if (s == text "Always") || (s == text "always")
    then ok pull_always
    else if (s == text "Never") || (s == text "never")
    then ok pull_never
    else if (s == text "IfNotPresent") || (s == text "ifNotPresent") || (s == text "if_not_present")
    then ok pull_if_not_present
    else err (invalid_type (text "Always|Never|IfNotPresent") s)
