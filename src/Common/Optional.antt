-- ===== src/Common/Optional.antt =====
-- Strings that may be undefined, in the places where the aggregates test, print and compare them.
use event_sourced_core_banki.Base.{
  Option, none, some, Bool, true, false, not, Text, text, ◌==◌, is_truthy,
}

-- `if (value)` on a string that may be undefined
abbrev pub is_set : Option Text → Bool
is_set none = false
is_set (some s) = is_truthy s

-- `${value}`
abbrev pub show_option : Option Text → Text
show_option none = text "undefined"
show_option (some s) = s

-- `this.currency !== currency`
abbrev pub differs : Option Text → Text → Bool
differs none t = true
differs (some s) t = not (s == t)
