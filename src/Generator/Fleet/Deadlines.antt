-- ===== src/Generator/Fleet/Deadlines.antt =====
-- What each operation does to the number of deadlines that a device has.
use geotrack.Prelude.{
  times, ℕ, zero, suc, ◌+◌, ◌<◌, ◌≡◌, refl, List, [], ◌∷◌, length, get_elem?, some, if◌then◌else◌,
  ltb, leb, ◌==◌, arith, Bool-cases, inl, inr, ◌∙◌, All,
}
use geotrack.Prelude.Int.{pos}
use geotrack.Float.{Floats}
use geotrack.Generator.{Random}
use geotrack.Generator.Fleet.{
  Schedule, before, push_entry, push, pop_due, Devices, update_at, arm, start, reschedule, defer,
  reschedule_all, defer_all,
}

-- how many deadlines a device has
abbrev pub entries : {T : Type 0} → ℕ → List (T × ℕ) → ℕ
entries i [] = 0
entries i ((due, j) ∷ rest) = (if i == j then 1 else 0) + entries i rest

abbrev pub expected : ℕ → ℕ → ℕ
expected i n = if ltb i n then 1 else 0

module _ (fl : Floats) where
  entries-push_entry :
      (i j : ℕ) (due : fl.F) (s : Schedule fl)
      → entries i (push_entry fl (due, j) s) ≡ (if i == j then 1 else 0) + entries i s
  unfolding push_entry
  entries-push_entry i j due [] = ground arith
  entries-push_entry i j due ((t, k) ∷ s) = elim (Bool-cases (before fl (due, j) (t, k))) [
    | inl first ↦ rw first (ground arith)
    | inr later ↦ rw later (ground (arith, entries-push_entry i j due s))
  ]

  entries-push :
      (i j : ℕ) (due : fl.F) (s : Schedule fl)
      → entries i (push fl j due s) ≡ (if i == j then 1 else 0) + entries i s
  unfolding push
  entries-push i j due s = entries-push_entry i j due s

  pub entries-pop_due :
      (i : ℕ) (now : fl.F) (s : Schedule fl)
      → times i (pop_due fl now s).0 + entries i (pop_due fl now s).1 ≡ entries i s
  unfolding pop_due
  entries-pop_due i now [] = refl
  entries-pop_due i now ((t, k) ∷ s) = ground (arith, entries-pop_due i now s)

module _ {ℓ} {A : Type ℓ} where
  pub length-update_at : (i : ℕ) (f : A → A) (xs : List A) → length (update_at i f xs) ≡ length xs
  unfolding update_at
  length-update_at i f [] = refl
  length-update_at zero f (x ∷ xs) = refl
  length-update_at (suc i) f (x ∷ xs) = omega (arith, length-update_at i f xs)

  pub get_elem?-some : (i : ℕ) (xs : List A) → i < length xs → (x : A) × (get_elem? xs i ≡ some x)
  get_elem?-some i [] h = absurd (omega arith)
  get_elem?-some zero (x ∷ xs) h = (x, refl)
  get_elem?-some (suc i) (x ∷ xs) h = get_elem?-some i xs (omega arith)

pub times-All :
    (n : ℕ) (due : List ℕ) → ((i : ℕ) → n < suc i → times i due ≡ 0) → All (λ j. j < n) due
times-All n [] h = tt
times-All n (j ∷ due) h = (
  elim (Bool-cases (ltb j n)) [ inl e ↦ ground arith | inr e ↦ absurd (ground (arith, h j)) ],
  times-All n due (λ i b. ground (arith, h i)),
)

module _ (fl : Floats) (rnd : Random fl) where
  arm-devices :
      (now spread : fl.F) (count index n : ℕ) (d : Devices fl rnd)
      → (arm fl rnd now spread count index n d).devices ≡ d.devices
  unfolding arm
  arm-devices now spread count index zero d = refl
  arm-devices now spread count index (suc n) d = arm-devices now spread count (suc index) n _

  -- `arm` adds one deadline for each index from `index` on.
  entries-arm :
      (now spread : fl.F) (count index n i : ℕ) (d : Devices fl rnd)
      → entries i (arm fl rnd now spread count index n d).schedule
        ≡ (if leb index i then if ltb i (index + n) then 1 else 0 else 0) + entries i d.schedule
  unfolding arm
  entries-arm now spread count index zero i d = ground arith
  entries-arm now spread count index (suc n) i d =
      let offset = fl.div (fl.mul spread (fl.literal (pos index))) (fl.literal (pos count)) in
      let draw = (rnd.random d.rng).0 in
      let due = fl.add (fl.add now offset) (fl.mul draw d.interval) in
      entries-arm now spread count (suc index) n i _
      ∙ ground (arith, entries-push fl i index due d.schedule)

  abbrev pub IsArmed : Devices fl rnd → Type 0
  IsArmed d = (i : ℕ) → entries i d.schedule ≡ expected i (length d.devices)

  pub start-IsArmed : (now spread : fl.F) (d : Devices fl rnd) → IsArmed (start fl rnd now spread d)
  unfolding start
  start-IsArmed now spread d i =
      let n = length d.devices in
      entries-arm now spread n 0 n i (record d { schedule = [] })
      ∙ rw (arm-devices now spread n 0 n (record d { schedule = [] })) (ground arith)

  pub start-devices :
      (now spread : fl.F) (d : Devices fl rnd) → (start fl rnd now spread d).devices ≡ d.devices
  unfolding start
  start-devices now spread d =
      arm-devices now spread (length d.devices) 0 (length d.devices) (record d { schedule = [] })

  -- A deadline for `j` is added, and no device comes or goes.
  abbrev pub Adds : ℕ → Devices fl rnd → Devices fl rnd → Type 0
  Adds j d d' =
      (length d'.devices ≡ length d.devices)
      × ((i : ℕ) → entries i d'.schedule ≡ (if i == j then 1 else 0) + entries i d.schedule)

  defer-Adds : (until : fl.F) (j : ℕ) (d : Devices fl rnd) → Adds j d (defer fl rnd until j d)
  unfolding defer
  defer-Adds until j d = (refl, λ i. entries-push fl i j _ d.schedule)

  pub reschedule-Adds :
      (now : fl.F) (j : ℕ) (d : Devices fl rnd)
      → j < length d.devices
      → Adds j d (reschedule fl rnd now j d)
  unfolding reschedule
  reschedule-Adds now j d h =
      let (device, e) = get_elem?-some j d.devices h in
      rw (e, reschedule) (length-update_at j _ d.devices, λ i. entries-push fl i j _ d.schedule)

  -- All of `due` is given back to the schedule.
  abbrev pub AddsAll : List ℕ → Devices fl rnd → Devices fl rnd → Type 0
  AddsAll due d d' =
      (length d'.devices ≡ length d.devices)
      × ((i : ℕ) → entries i d'.schedule ≡ times i due + entries i d.schedule)

  Adds-AddsAll :
      (j : ℕ) (due : List ℕ) (d d1 d2 : Devices fl rnd)
      → Adds j d d1
      → AddsAll due d1 d2
      → AddsAll (j ∷ due) d d2
  Adds-AddsAll j due d d1 d2 one all = (all.0 ∙ one.0, λ i. omega (arith, one.1 i, all.1 i))

  pub defer_all-AddsAll :
      (until : fl.F) (due : List ℕ) (d : Devices fl rnd)
      → AddsAll due d (defer_all fl rnd until due d)
  unfolding defer_all
  defer_all-AddsAll until [] d = (refl, λ i. omega arith)
  defer_all-AddsAll until (j ∷ due) d =
      let d1 = defer fl rnd until j d in
      let d2 = defer_all fl rnd until due d1 in
      Adds-AddsAll j due d d1 d2 (defer-Adds until j d) (defer_all-AddsAll until due d1)

  abbrev pub Known : List ℕ → Devices fl rnd → Type 0
  Known due d = All (λ j. j < length d.devices) due

  pub Known-same :
      (due : List ℕ) (d d' : Devices fl rnd)
      → length d'.devices ≡ length d.devices
      → Known due d
      → Known due d'
  Known-same due d d' e h = rw e h

  pub reschedule_all-AddsAll :
      (now : fl.F) (due : List ℕ) (d : Devices fl rnd)
      → Known due d
      → AddsAll due d (reschedule_all fl rnd now due d)
  unfolding reschedule_all
  reschedule_all-AddsAll now [] d h = (refl, λ i. omega arith)
  reschedule_all-AddsAll now (j ∷ due) d h =
      let d1 = reschedule fl rnd now j d in
      let one = reschedule-Adds now j d h.0 in
      let d2 = reschedule_all fl rnd now due d1 in
      Adds-AddsAll j due d d1 d2 one
        (reschedule_all-AddsAll now due d1 (Known-same due d d1 one.0 h.1))
