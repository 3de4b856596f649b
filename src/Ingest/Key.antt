-- ===== src/Ingest/Key.antt =====
-- src/geotrack/api/deps.py: `verify_ingest_key`. A text is the list of its code points; its UTF-8 is
-- a parameter.
use geotrack.Prelude.{
  ℕ, Bool, true, false, List, [], ◌∷◌, Option, none, some, if◌then◌else◌, ltb, any, ◌==◌,
}
use geotrack.Prelude.Text.{Bytes}

-- `hmac.compare_digest`
abbrev pub compare_digest : Bytes → Bytes → Bool
compare_digest [] [] = true
compare_digest (a ∷ xs) (b ∷ ys) = let rest = compare_digest xs ys in if a == b then rest else false
compare_digest _ _ = false

-- `provided.encode("latin-1")`, `none` for its `UnicodeEncodeError`
abbrev pub latin_1 : List ℕ → Option Bytes
latin_1 text = if any (λ c. ltb 255 c) text then none else some text

abbrev pub suppressed : Option Bytes → List Bytes
suppressed none = []
suppressed (some bytes) = bytes ∷ []

module _ (utf_8 : List ℕ → Bytes) where
  unfoldable pub key_candidates : List ℕ → List Bytes
  key_candidates provided = utf_8 provided ∷ suppressed (latin_1 provided)

  -- `true` where `verify_ingest_key` returns, `false` where it raises its `ProblemError`
  unfoldable pub verify_ingest_key : Bytes → Option (List ℕ) → Bool
  unfolding key_candidates
  verify_ingest_key expected none = false
  verify_ingest_key expected (some []) = false
  verify_ingest_key expected (some (c ∷ cs)) =
      any (λ candidate. compare_digest candidate expected) (key_candidates (c ∷ cs))
