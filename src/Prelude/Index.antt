-- ===== src/Prelude/Index.antt =====
-- Python's sets, and the nested containers that the program keeps: a dict of sets, a dict of dicts.
use mathlib.Core.Path.{◌≡◌, refl}
use mathlib.Core.Logic.{ite}
use mathlib.Core.Bool.{Bool, true, false}
use mathlib.Core.List.{List, [], ◌∷◌, ◌++◌}
use mathlib.Core.Option.{Option, none, some}
use native.Mathlib.Omega.{arith}
use geotrack.Prelude.Tests.{Option-cases, if◌then◌else◌}
use geotrack.Prelude.Dict.{Dict, get, put, pop, get-put, get-pop}
use mathlib.Core.Logic.{inl, inr}

module _ {A : Type 0} (dec : Discrete A) where
  -- `a in s`
  unfoldable pub member : A → List A → Bool
  member a [] = false
  member a (x ∷ s) = ite (dec x a) true (member a s)

  -- `s.add(a)`
  unfoldable pub add : A → List A → List A
  add a [] = a ∷ []
  add a (x ∷ s) = ite (dec x a) (x ∷ s) (x ∷ add a s)

  -- `s.discard(a)`
  unfoldable pub discard : A → List A → List A
  discard a [] = []
  discard a (x ∷ s) = let rest = discard a s in ite (dec x a) rest (x ∷ rest)

  pub member-add : (a b : A) (s : List A) → member b (add a s) ≡ ite (dec a b) true (member b s)
  unfolding member add
  member-add a b [] = ground arith
  member-add a b (x ∷ s) = ground (arith, member-add a b s)

  pub member-discard :
      (a b : A) (s : List A) → member b (discard a s) ≡ ite (dec a b) false (member b s)
  unfolding member discard
  member-discard a b [] = ground arith
  member-discard a b (x ∷ s) = ground (arith, member-discard a b s)

module _ {C D : Type 0} (decC : Discrete C) (decD : Discrete D) where
  abbrev pub in_set : D → Option (List D) → Bool
  in_set d none = false
  in_set d (some s) = member decD d s

  -- `d in m[c]`, false where `m` has no `c`
  unfoldable pub has : C → D → Dict C (List D) → Bool
  has c d m = in_set d (get decC c m)

  abbrev pub or_empty : Option (List D) → List D
  or_empty none = []
  or_empty (some s) = s

  -- `m.setdefault(c, set()).add(d)`
  unfoldable pub add_at : C → D → Dict C (List D) → Dict C (List D)
  add_at c d m = put decC c (add decD d (or_empty (get decC c m))) m

  -- `s = m.get(c)`, and `s.discard(d)` if there is one
  unfoldable pub discard_at : C → D → Dict C (List D) → Dict C (List D)
  discard_at c d m = elim (get decC c m) [ none ↦ m | some s ↦ put decC c (discard decD d s) m ]

  -- Stores a set, or deletes its key when nothing is left.
  unfoldable pub keep_nonempty : C → List D → Dict C (List D) → Dict C (List D)
  keep_nonempty c [] m = pop decC c m
  keep_nonempty c (x ∷ s) m = put decC c (x ∷ s) m

  -- the same as `discard_at`, with `del m[c]` when the set becomes empty
  unfoldable pub discard_or_drop : C → D → Dict C (List D) → Dict C (List D)
  unfolding keep_nonempty
  discard_or_drop c d m = elim (get decC c m) [
    | none ↦ m
    | some s ↦ keep_nonempty c (discard decD d s) m
  ]

  pub has-add_at :
      (c e : C) (d b : D) (m : Dict C (List D))
      → has e b (add_at c d m) ≡ ite (decC c e) (ite (decD d b) true (has c b m)) (has e b m)
  unfolding has add_at member
  has-add_at c e d b m = elim (Option-cases (get decC c m)) [
    | inl miss ↦ ground (arith, get-put decC c e (add decD d []) m, member-add decD d b [])
    | inr (s, hit) ↦ ground (arith, get-put decC c e (add decD d s) m, member-add decD d b s)
  ]

  pub has-discard_at :
      (c e : C) (d b : D) (m : Dict C (List D))
      → has e b (discard_at c d m) ≡ ite (decC c e) (ite (decD d b) false (has c b m)) (has e b m)
  unfolding has discard_at
  has-discard_at c e d b m = elim (Option-cases (get decC c m)) [
    | inl miss ↦ ground arith
    | inr (s, hit) ↦
        ground (arith, get-put decC c e (discard decD d s) m, member-discard decD d b s)
  ]

  pub get-keep_nonempty :
      (c e : C) (s : List D) (m : Dict C (List D)) (b : D)
      → has e b (keep_nonempty c s m) ≡ ite (decC c e) (member decD b s) (has e b m)
  unfolding has keep_nonempty member
  get-keep_nonempty c e [] m b = ground (arith, get-pop decC c e m)
  get-keep_nonempty c e (x ∷ s) m b = ground (arith, get-put decC c e (x ∷ s) m)

  pub has-discard_or_drop :
      (c e : C) (d b : D) (m : Dict C (List D))
      → has e b (discard_or_drop c d m)
        ≡ ite (decC c e) (ite (decD d b) false (has c b m)) (has e b m)
  unfolding has discard_or_drop
  has-discard_or_drop c e d b m = elim (Option-cases (get decC c m)) [
    | inl miss ↦ ground arith
    | inr (s, hit) ↦
        ground (arith, get-keep_nonempty c e (discard decD d s) m b, member-discard decD d b s)
  ]

module _ {C D V : Type 0} (decC : Discrete C) (decD : Discrete D) where
  abbrev pub in_dict : D → Option (Dict D V) → Option V
  in_dict d none = none
  in_dict d (some s) = get decD d s

  -- `m[c][d]` if both keys are there
  unfoldable pub at : C → D → Dict C (Dict D V) → Option V
  at c d m = in_dict d (get decC c m)

  abbrev pub or_empty_dict : Option (Dict D V) → Dict D V
  or_empty_dict none = []
  or_empty_dict (some s) = s

  -- `m.setdefault(c, {})[d] = v`
  unfoldable pub put_at : C → D → V → Dict C (Dict D V) → Dict C (Dict D V)
  put_at c d v m = put decC c (put decD d v (or_empty_dict (get decC c m))) m

  -- `s = m.get(c)`, and `s.pop(d, None)` if there is one
  unfoldable pub pop_at : C → D → Dict C (Dict D V) → Dict C (Dict D V)
  pop_at c d m = elim (get decC c m) [ none ↦ m | some s ↦ put decC c (pop decD d s) m ]

  pub at-put_at :
      (c e : C) (d b : D) (v : V) (m : Dict C (Dict D V))
      → at e b (put_at c d v m) ≡ ite (decC c e) (ite (decD d b) (some v) (at c b m)) (at e b m)
  unfolding at put_at get
  at-put_at c e d b v m = elim (Option-cases (get decC c m)) [
    | inl miss ↦ ground (arith, get-put decC c e (put decD d v []) m, get-put decD d b v [])
    | inr (s, hit) ↦ ground (arith, get-put decC c e (put decD d v s) m, get-put decD d b v s)
  ]

  pub at-pop_at :
      (c e : C) (d b : D) (m : Dict C (Dict D V))
      → at e b (pop_at c d m) ≡ ite (decC c e) (ite (decD d b) none (at c b m)) (at e b m)
  unfolding at pop_at
  at-pop_at c e d b m = elim (Option-cases (get decC c m)) [
    | inl miss ↦ ground arith
    | inr (s, hit) ↦ ground (arith, get-put decC c e (pop decD d s) m, get-pop decD d b s)
  ]

module _ {A : Type 0} (dec : Discrete A) where
  pub member-append :
      (a : A) (xs ys : List A)
      → member dec a (xs ++ ys) ≡ (if member dec a xs then true else member dec a ys)
  unfolding member
  member-append a [] ys = refl
  member-append a (x ∷ xs) ys = ground (arith, member-append a xs ys)
