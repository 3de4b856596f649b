-- ===== src/Prelude/Dict.antt =====
-- Python's `dict` over keys with decidable equality, as a list of pairs in insertion order: a
-- write to a known key keeps its place, a new key goes to the end.
use mathlib.Core.Path.{◌≡◌, refl, sym, subst, ◌∙◌}
use mathlib.Core.Logic.{◌≢◌, ite, if_pos, if_neg}
use mathlib.Core.List.{List, [], ◌∷◌}
use mathlib.Core.Option.{Option, none, some}
use native.Mathlib.Omega.{arith}
use geotrack.Prelude.Lists.{All, In, here, there}

abbrev pub Dict {ℓ} : Type ℓ → Type ℓ → Type ℓ
Dict K V = List (K × V)

module _ {ℓ} {K V : Type ℓ} (dec : Discrete K) where
  -- `d.get(k)`
  unfoldable pub get : K → Dict K V → Option V
  get k [] = none
  get k ((j, v) ∷ d) = ite (dec j k) (some v) (get k d)

  -- `d[k] = v`
  unfoldable pub put : K → V → Dict K V → Dict K V
  put k v [] = (k, v) ∷ []
  put k v ((j, w) ∷ d) = ite (dec j k) ((j, v) ∷ d) ((j, w) ∷ put k v d)

  -- `d.pop(k, None)`
  unfoldable pub pop : K → Dict K V → Dict K V
  pop k [] = []
  pop k ((j, w) ∷ d) = let rest = pop k d in ite (dec j k) rest ((j, w) ∷ rest)

  pub get-put :
      (k j : K) (v : V) (d : Dict K V) → get j (put k v d) ≡ ite (dec k j) (some v) (get j d)
  unfolding get put
  get-put k j v [] = refl
  get-put k j v ((i, w) ∷ d) = ground (arith, get-put k j v d)

  pub get-pop : (k j : K) (d : Dict K V) → get j (pop k d) ≡ ite (dec k j) none (get j d)
  unfolding get pop
  get-pop k j [] = ground arith
  get-pop k j ((i, w) ∷ d) = ground (arith, get-pop k j d)

  pub get-put_self : (k : K) (v : V) (d : Dict K V) → get k (put k v d) ≡ some v
  get-put_self k v d = rw get-put (if_pos (dec k k) refl _ _)

  pub get-put_ne : (k j : K) (v : V) (d : Dict K V) → k ≢ j → get j (put k v d) ≡ get j d
  get-put_ne k j v d h = rw get-put (if_neg (dec k j) h _ _)

  pub get-pop_self : (k : K) (d : Dict K V) → get k (pop k d) ≡ none
  get-pop_self k d = rw get-pop (if_pos (dec k k) refl _ _)

  pub get-pop_ne : (k j : K) (d : Dict K V) → k ≢ j → get j (pop k d) ≡ get j d
  get-pop_ne k j d h = rw get-pop (if_neg (dec k j) h _ _)

  -- What a lookup finds, iteration reaches.
  pub In-get : (k : K) (v : V) (d : Dict K V) → get k d ≡ some v → In (k, v) d
  unfolding get
  In-get k v [] h = cc
  In-get k v ((j, w) ∷ d) h = elim (dec j k) [
    | yes p ↦ let e : w ≡ v = ground arith in rw (← p, ← e) here
    | no p ↦ let e : get k d ≡ some v = ground arith in there (In-get k v d e)
  ]

  -- No key stands twice, as in every dict that is built by `put` and `pop`.
  abbrev pub Distinct : Dict K V → Type ℓ
  Distinct [] = Unit
  Distinct ((k, v) ∷ d) = (get k d ≡ none) × Distinct d

  pub Distinct-put : (k : K) (v : V) (d : Dict K V) → Distinct d → Distinct (put k v d)
  unfolding put
  Distinct-put k v [] h = (unfold get in refl, tt)
  Distinct-put k v ((j, w) ∷ d) h = elim (dec j k) [
    | yes p ↦ rw (if_pos (dec j k) p ((j, v) ∷ d) ((j, w) ∷ put k v d)) h
    | no p ↦
        rw (if_neg (dec j k) p ((j, v) ∷ d) ((j, w) ∷ put k v d))
          (get-put_ne k j v d (λ e. p (sym e)) ∙ h.0, Distinct-put k v d h.1)
  ]

  pub Distinct-pop : (k : K) (d : Dict K V) → Distinct d → Distinct (pop k d)
  unfolding pop
  Distinct-pop k [] h = h
  Distinct-pop k ((j, w) ∷ d) h = elim (dec j k) [
    | yes p ↦ rw (if_pos (dec j k) p (pop k d) ((j, w) ∷ pop k d)) (Distinct-pop k d h.1)
    | no p ↦
        rw (if_neg (dec j k) p (pop k d) ((j, w) ∷ pop k d))
          (get-pop_ne k j d (λ e. p (sym e)) ∙ h.0, Distinct-pop k d h.1)
  ]

  get_absent : (k : K) (v : V) (d : Dict K V) → get k d ≡ none → ¬ In (k, v) d
  unfolding get
  get_absent k v [] h m = elim m [ ]
  get_absent k v ((j, w) ∷ d) h here = absurd (ground arith)
  get_absent k v ((j, w) ∷ d) h (there m) = get_absent k v d (ground arith) m

  -- What iteration reaches, a lookup finds.
  pub get-In : (k : K) (v : V) (d : Dict K V) → Distinct d → In (k, v) d → get k d ≡ some v
  unfolding get
  get-In k v [] h m = elim m [ ]
  get-In k v ((j, w) ∷ d) h here = if_pos (dec k k) refl _ _
  get-In k v ((j, w) ∷ d) h (there m) = elim (dec j k) [
    | yes p ↦ absurd (get_absent j v d h.0 (rw p m))
    | no p ↦ if_neg (dec j k) p _ _ ∙ get-In k v d h.1 m
  ]

module _ {ℓ κ} {K V : Type ℓ} (dec : Discrete K) (P : V → Type κ) where
  -- A property of every stored value.
  abbrev pub Stores : Dict K V → Type κ
  Stores = All (λ e. P e.1)

  pub Stores-put : (k : K) (v : V) (d : Dict K V) → P v → Stores d → Stores (put dec k v d)
  unfolding put
  Stores-put k v [] p h = (p, tt)
  Stores-put k v ((j, w) ∷ d) p h = elim (dec j k) [
    | yes e ↦ rw (if_pos (dec j k) e ((j, v) ∷ d) ((j, w) ∷ put dec k v d)) (p, h.1)
    | no e ↦
        rw (if_neg (dec j k) e ((j, v) ∷ d) ((j, w) ∷ put dec k v d)) (h.0, Stores-put k v d p h.1)
  ]

  pub Stores-get : (k : K) (v : V) (d : Dict K V) → Stores d → get dec k d ≡ some v → P v
  unfolding get
  Stores-get k v [] h e = cc
  Stores-get k v ((j, w) ∷ d) h e = elim (dec j k) [
    | yes p ↦ let same : w ≡ v = ground arith in subst P same h.0
    | no p ↦ let rest : get dec k d ≡ some v = ground arith in Stores-get k v d h.1 rest
  ]
