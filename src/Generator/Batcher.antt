-- ===== src/Generator/Batcher.antt =====
-- generator.py: `Batcher`, which groups reports into requests, and the loop of `_produce` that
-- empties it. Reports are of any type.
pub mod Drained
use geotrack.Prelude.{
  ℕ, zero, suc, ◌+◌, Bool, true, false, ◌||◌, List, [], ◌∷◌, ◌++◌, length, take, drop, Option, none,
  some, if◌then◌else◌, leb,
}
use geotrack.Prelude.Int.{pos}
use geotrack.Float.{Floats, max_of}

pub record Batcher (fl : Floats) (A : Type 0) : Type 0 where
  pub size : ℕ
  pub window : fl.F
  pub reports : List A
  pub oldest_at : fl.F

module _ (fl : Floats) {A : Type 0} where
  open fl use {F, le, add, sub, literal}

  unfoldable pub new_batcher : ℕ → F → Batcher fl A
  new_batcher size window = record {
    size = size;
    window = window;
    reports = [];
    oldest_at = literal (pos 0);
  }

  abbrev pub oldest_after : List A → F → F → F
  oldest_after [] old now = now
  oldest_after (r ∷ rs) old now = old

  unfoldable pub add_report : A → F → Batcher fl A → Batcher fl A
  add_report report now b = record b {
    reports = b.reports ++ (report ∷ []);
    oldest_at = oldest_after b.reports b.oldest_at now;
  }

  abbrev pub remaining_of : List A → F → Option F
  remaining_of [] left = none
  remaining_of (r ∷ rs) left = some left

  unfoldable pub remaining : F → Batcher fl A → Option F
  remaining now b =
      remaining_of b.reports (max_of fl (sub (add b.oldest_at b.window) now) (literal (pos 0)))

  abbrev pub ready_at : ℕ → List A → Option F → Bool
  ready_at size reports none = false
  ready_at size reports (some left) = leb size (length reports) || le left (literal (pos 0))

  unfoldable pub ready : F → Batcher fl A → Bool
  unfolding remaining
  ready now b = ready_at b.size b.reports (remaining now b)

  unfoldable pub take_batch : Batcher fl A → List A × Batcher fl A
  take_batch b =
      if leb (length b.reports) b.size
      then (b.reports, record b { reports = [] })
      else (take b.size b.reports, record b { reports = drop b.size b.reports })

  -- `while batcher.ready(now): self._offer(batcher.take())`, the batches in their order. A batch
  -- takes a report at least, so as many rounds as there are reports are enough, and one more test.
  unfoldable pub drain : ℕ → F → Batcher fl A → Option (List (List A) × Batcher fl A)
  unfolding ready take_batch
  drain zero now b = none
  drain (suc n) now b = elim (ready now b) [
    | false ↦ some ([], b)
    | true ↦ elim (drain n now (take_batch b).1) [
      | none ↦ none
      | some (batches, b') ↦ some ((take_batch b).0 ∷ batches, b')
    ]
  ]
