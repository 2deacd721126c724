-- ===== src/Outbound/Submission/Address.antt =====
-- Email addresses as texts: `address.rsplit("@", 1)`.
use Prim.Native.Char.{code}
use text.Mathlib.Text.{◌==◌ as str_eq}
use operational_inbox.Common.{Bool, ◌||◌, Option, none, some, String, ◌==◌, if◌then◌else◌, or_else}

-- What stands behind the last `@`, if there is one.
abbrev pub behind_at : String → Option String
behind_at String.[] = none
behind_at (String.◌∷◌ c s) = elim (behind_at s) [
  | some domain ↦ some domain
  | none ↦ if code c == b'@' then some s else none
]

-- `address.rsplit("@", 1)[-1]`
abbrev pub address_domain : String → String
address_domain s = or_else (behind_at s) s

-- `text.endswith(suffix)`
abbrev pub has_suffix : String → String → Bool
has_suffix suffix String.[] = str_eq suffix ""
has_suffix suffix (String.◌∷◌ c s) = str_eq suffix (String.◌∷◌ c s) || has_suffix suffix s
