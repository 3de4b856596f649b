-- ===== src/Ingest/Shards/Agreement.antt =====
-- Processes that start agree.
use Prim.Native.String.{String}
use text.Mathlib.Text.{◌==◌ as str_eq}
use text.Mathlib.TextEquality.{eq_iff}
use geotrack.Prelude.{
  ℕ, ◌≡◌, refl, sym, ◌∙◌, List, [], ◌∷◌, Option, none, some, All, All-In, In, Bool-cases, inl, inr,
  arith,
}
use geotrack.Ingest.Shards.{MismatchError, Meta, compared, verify_shard_count}

module _ (str : ℕ → String) where
  -- the counts of the processes that start, of those that try, one after the other
  abbrev pub kept : ℕ → Option MismatchError → List ℕ → List ℕ
  kept n none ns = n ∷ ns
  kept n (some e) ns = ns

  abbrev pub started : List ℕ → Meta → List ℕ
  started [] meta = []
  started (n ∷ ns) meta =
      let (answer, after) = verify_shard_count str n meta in kept n answer (started ns after)

  compared-eq : (n : ℕ) (old : String) → compared str n (some old) ≡ none → old ≡ str n
  unfolding compared
  compared-eq n old h = elim (Bool-cases (str_eq old (str n))) [
    | inl e ↦ (eq_iff old (str n)).0 e
    | inr e ↦ absurd (ground (arith, e, h))
  ]

  started-recorded : (ns : List ℕ) (old : String) → All (λ n. old ≡ str n) (started ns (some old))
  unfolding verify_shard_count
  started-recorded [] old = tt
  started-recorded (n ∷ ns) old =
      keep (compared str n (some old)) (compared-eq n old) (started-recorded ns old)
    where
      keep :
          (r : Option MismatchError)
          → (r ≡ none → old ≡ str n)
          → All (λ n. old ≡ str n) (started ns (some old))
          → All (λ n. old ≡ str n) (kept n r (started ns (some old)))
      keep none e rest = (e refl, rest)
      keep (some x) e rest = rest

  started-texts :
      (ns : List ℕ) (meta : Meta) → (old : String) × All (λ n. old ≡ str n) (started ns meta)
  unfolding verify_shard_count compared
  started-texts [] meta = ("", tt)
  started-texts ns (some old) = (old, started-recorded ns old)
  started-texts (n ∷ ns) none = (str n, (refl, started-recorded ns (str n)))

  -- Of any processes that start one after the other, whatever the queue recorded before, all those
  -- that are let in have the same number of shards, if different numbers have different texts.
  pub verify_shard_count-agree :
      ((a b : ℕ) → str a ≡ str b → a ≡ b)
      → (ns : List ℕ) (meta : Meta) (a b : ℕ) → In a (started ns meta)
      → In b (started ns meta)
      → a ≡ b
  verify_shard_count-agree inj ns meta a b p q =
      let (old, same) = started-texts ns meta in
      inj a b (sym (All-In (λ n. old ≡ str n) same p) ∙ All-In (λ n. old ≡ str n) same q)
