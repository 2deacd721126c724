-- ===== src/Digest.antt =====
-- The content digests of inbox/models.py. SHA-256, with the encoding of its input, and the JSON
-- printer are Python's and are parameters; a digest is the number that it stands for.
use Prim.Native.String.{◌++◌}
use operational_inbox.Common.{ℕ, String, List, [], ◌∷◌}

pub record Hashing : Type 0 where
  pub sha256 : String → ℕ
  pub dumps : List String → String

-- `separator.join(parts)`
abbrev pub join : String → List String → String
join separator [] = ""
join separator (s ∷ []) = s
join separator (s ∷ t ∷ rest) = s ++ separator ++ join separator (t ∷ rest)

-- U+001F between the parts.
abbrev pub unit_separator : String
unit_separator = "\u{1f}"

unfoldable pub content_digest : Hashing → List String → ℕ
content_digest h parts = h.sha256 (join unit_separator parts)

unfoldable pub compose_content_digest :
    Hashing → (from_address to_address subject body_text : String) → ℕ
unfolding content_digest
compose_content_digest h from_address to_address subject body_text =
    content_digest h (h.dumps (from_address ∷ to_address ∷ subject ∷ body_text ∷ []) ∷ [])
