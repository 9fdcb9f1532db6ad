-- ===== src/Ahk/Criteria.antt =====
-- ahk/parser.rs, parse_window_criteria: the window that a context means.
use ahk_wayland.Prelude.{
  Option, none, some, Text, text, ◌==◌, trim, trim_matches, strip_prefix, strip_suffix,
}
use ahk_wayland.Ahk.Types.{WindowCriteria, title, class, exe}
use ahk_wayland.Ahk.Parsed.{Parsed, ok, err}

abbrev pub or_class : Text → Option Text → WindowCriteria
or_class inner none = title inner
or_class inner (some s) = class (trim s)

abbrev pub or_exe : Text → Option Text → WindowCriteria
or_exe inner none = or_class inner (strip_prefix (text "ahk_class ") inner)
or_exe inner (some s) = exe (trim s)

-- What stands between the parentheses, without the quotes around it.
unfoldable pub inner_criteria : Text → WindowCriteria
inner_criteria inner = or_exe inner (strip_prefix (text "ahk_exe ") inner)

-- The text behind the prefix and before the closing parenthesis, if the context has both. A prefix
-- ends in an opening parenthesis, so it cannot take the closing one.
abbrev pub behind : Option Text → Option Text
behind none = none
behind (some rest) = strip_suffix (text ")") rest

abbrev pub between : Text → Text → Option Text
between prefix s = behind (strip_prefix prefix s)

abbrev pub criteria_or_err : Option Text → Parsed WindowCriteria
criteria_or_err none = err
criteria_or_err (some inner) = ok (inner_criteria (trim_matches (λ c. c == 34) inner))

abbrev pub or_negated : Text → Option Text → Option Text
or_negated s none = between (text "!WinActive(") s
or_negated s (some inner) = some inner

-- A negation is read like the condition itself.
unfoldable pub parse_window_criteria : Text → Parsed WindowCriteria
unfolding inner_criteria
parse_window_criteria s =
    criteria_or_err (or_negated (trim s) (between (text "WinActive(") (trim s)))
