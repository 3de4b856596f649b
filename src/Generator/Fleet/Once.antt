-- ===== src/Generator/Fleet/Once.antt =====
-- Each device has one deadline, whatever rounds its fleet has been through.
use geotrack.Prelude.{
  ℕ, ◌<◌, ◌≡◌, refl, List, [], ◌∷◌, length, length-append, arith, ap, sym, subst, ◌∙◌,
}
use geotrack.Float.{Floats}
use geotrack.Generator.{Random, Math}
use geotrack.Generator.Fleet.{
  pop_due, Devices, Report, start, reschedule, step, step_all, produce_all, reschedule_all,
  defer_all, Round, sends, holds, batches, rearms, round, rounds,
}
use geotrack.Generator.Fleet.Deadlines.{
  entries, expected, times-All, length-update_at, get_elem?-some, entries-pop_due, IsArmed,
  start-IsArmed, start-devices, AddsAll, defer_all-AddsAll, Known, Known-same, reschedule-Adds,
  reschedule_all-AddsAll,
}

module _ (fl : Floats) (rnd : Random fl) where
  module _ (mt : Math fl) (round7 : fl.F → fl.F) where
    -- One report for each of `due`, which moves devices and nothing else.
    abbrev Steps : ℕ → Devices fl rnd → List (Report fl) × Devices fl rnd → Type 0
    Steps n d r =
        (length r.0 ≡ n) × (length r.1.devices ≡ length d.devices) × (r.1.schedule ≡ d.schedule)

    step-Steps :
        (j moment : ℕ) (d : Devices fl rnd)
        → j < length d.devices
        → Steps 1 d (step fl rnd mt round7 j moment d)
    unfolding step
    step-Steps j moment d h =
        let (device, e) = get_elem?-some j d.devices h in
        rw (e, step) (refl, length-update_at j _ d.devices, refl)

    step_all-Steps :
        (moment : ℕ) (due : List ℕ) (d : Devices fl rnd)
        → Known fl rnd due d
        → Steps (length due) d (step_all fl rnd mt round7 moment due d)
    unfolding step_all
    step_all-Steps moment [] d h = (refl, refl, refl)
    step_all-Steps moment (j ∷ due) d h =
        let one = step-Steps j moment d h.0 in
        let (r, d1) = step fl rnd mt round7 j moment d in
        let rest = step_all-Steps moment due d1 (Known-same fl rnd due d d1 one.1 h.1) in
        let (rs, d2) = step_all fl rnd mt round7 moment due d1 in
        (omega (arith, length-append r rs, one.0, rest.0), rest.1 ∙ one.1, rest.2 ∙ one.2)

    produce_all-AddsAll :
        (now : fl.F) (moment : ℕ) (due : List ℕ) (d : Devices fl rnd)
        → Known fl rnd due d
        → (length (produce_all fl rnd mt round7 now moment due d).0 ≡ length due)
          × AddsAll fl rnd due d (produce_all fl rnd mt round7 now moment due d).1
    unfolding produce_all
    produce_all-AddsAll now moment [] d h = (refl, (refl, λ i. omega arith))
    produce_all-AddsAll now moment (j ∷ due) d h =
        let one = step-Steps j moment d h.0 in
        let (r, d1) = step fl rnd mt round7 j moment d in
        let add = reschedule-Adds fl rnd now j d1 (rw one.1 h.0) in
        let d2 = reschedule fl rnd now j d1 in
        let rest =
          produce_all-AddsAll now moment due d2 (Known-same fl rnd due d d2 (add.0 ∙ one.1) h.1) in
        let (rs, d3) = produce_all fl rnd mt round7 now moment due d2 in
        (
          omega (arith, length-append r rs, one.0, rest.0),
          (rest.1.0 ∙ add.0 ∙ one.1, λ i. omega (arith, rest.1.1 i, add.1 i, ap (entries i) one.2)),
        )

  -- The reports that a round makes: one for each device that is due, if it is not held back.
  abbrev pub made : Round fl → Devices fl rnd → ℕ
  made (sends now moment) d = length (pop_due fl now d.schedule).0
  made (holds now until) d = 0
  made (batches now moment) d = length (pop_due fl now d.schedule).0
  made (rearms now spread) d = 0

  waiting : fl.F → Devices fl rnd → Devices fl rnd
  waiting now d = record d { schedule = (pop_due fl now d.schedule).1 }

  due-Known :
      (now : fl.F) (d : Devices fl rnd)
      → IsArmed fl rnd d
      → Known fl rnd (pop_due fl now d.schedule).0 (waiting now d)
  unfolding waiting
  due-Known now d h =
      times-All (length d.devices) (pop_due fl now d.schedule).0
        (λ i b. ground (arith, h i, entries-pop_due fl i now d.schedule))

  AddsAll-IsArmed :
      (now : fl.F) (d d' : Devices fl rnd)
      → IsArmed fl rnd d
      → AddsAll fl rnd (pop_due fl now d.schedule).0 (waiting now d) d'
      → IsArmed fl rnd d'
  unfolding waiting
  AddsAll-IsArmed now d d' h a i =
      rw a.0 (omega (arith, h i, entries-pop_due fl i now d.schedule, a.1 i))

  module _ (mt : Math fl) (round7 : fl.F → fl.F) where
    -- The number of reports, and the state that the next round finds.
    abbrev pub Keeps : ℕ → ℕ → List (Report fl) × Devices fl rnd → Type 0
    Keeps n m r =
        (length r.0 ≡ m)
        × (length r.1.devices ≡ n)
        × ((i : ℕ) → entries i r.1.schedule ≡ expected i n)

    pub Keeps-IsArmed :
        (n m : ℕ) (r : List (Report fl) × Devices fl rnd) → Keeps n m r → IsArmed fl rnd r.1
    Keeps-IsArmed n m r k i = k.2 i ∙ ap (expected i) (sym k.1)

    pub round-Keeps :
        (r : Round fl) (d : Devices fl rnd)
        → IsArmed fl rnd d
        → Keeps (length d.devices) (made r d) (round fl rnd mt round7 r d)
    unfolding round waiting
    round-Keeps (sends now moment) d h =
        let due = (pop_due fl now d.schedule).0 in
        let d0 = waiting now d in
        let known = due-Known now d h in
        let steps = step_all-Steps mt round7 moment due d0 known in
        let d1 = (step_all fl rnd mt round7 moment due d0).1 in
        let d2 = reschedule_all fl rnd now due d1 in
        let back =
          reschedule_all-AddsAll fl rnd now due d1 (Known-same fl rnd due d0 d1 steps.1 known) in
        let all : AddsAll fl rnd due d0 d2 =
          (back.0 ∙ steps.1, λ i. omega (arith, back.1 i, ap (entries i) steps.2)) in
        (
          steps.0,
          all.0,
          subst (λ n. (i : ℕ) → entries i d2.schedule ≡ expected i n) all.0
              (AddsAll-IsArmed now d d2 h all),
        )
    round-Keeps (holds now until) d h =
        let due = (pop_due fl now d.schedule).0 in
        let d0 = waiting now d in
        let d1 = defer_all fl rnd until due d0 in
        let all = defer_all-AddsAll fl rnd until due d0 in
        (
          refl,
          all.0,
          subst (λ n. (i : ℕ) → entries i d1.schedule ≡ expected i n) all.0
              (AddsAll-IsArmed now d d1 h all),
        )
    round-Keeps (batches now moment) d h =
        let due = (pop_due fl now d.schedule).0 in
        let d0 = waiting now d in
        let all = produce_all-AddsAll mt round7 now moment due d0 (due-Known now d h) in
        let d1 = (produce_all fl rnd mt round7 now moment due d0).1 in
        (
          all.0,
          all.1.0,
          subst (λ n. (i : ℕ) → entries i d1.schedule ≡ expected i n) all.1.0
              (AddsAll-IsArmed now d d1 h all.1),
        )
    round-Keeps (rearms now spread) d h =
        let d1 = start fl rnd now spread d in
        let same = ap length (start-devices fl rnd now spread d) in
        (
          refl,
          same,
          subst (λ n. (i : ℕ) → entries i d1.schedule ≡ expected i n) same
              (start-IsArmed fl rnd now spread d),
        )

    rounds-IsArmed :
        (rs : List (Round fl)) (d : Devices fl rnd)
        → IsArmed fl rnd d
        → IsArmed fl rnd (rounds fl rnd mt round7 rs d)
          × (length (rounds fl rnd mt round7 rs d).devices ≡ length d.devices)
    unfolding rounds
    rounds-IsArmed [] d h = (h, refl)
    rounds-IsArmed (r ∷ rs) d h =
        let k = round-Keeps r d h in
        let d1 = (round fl rnd mt round7 r d).1 in
        let rest =
          rounds-IsArmed rs d1
            (Keeps-IsArmed (length d.devices) (made r d) (round fl rnd mt round7 r d) k) in
        (rest.0, rest.1 ∙ k.1)

    -- After a fleet is started, and after any rounds of it, another round makes a report for each
    -- deadline that it takes and sends for, keeps the number of devices, and leaves each device
    -- exactly one deadline, and no other index any.
    pub rounds-Keeps :
        (now spread : fl.F) (d : Devices fl rnd) (rs : List (Round fl)) (r : Round fl)
        → let d' = rounds fl rnd mt round7 rs (start fl rnd now spread d) in
          Keeps (length d.devices) (made r d') (round fl rnd mt round7 r d')
    rounds-Keeps now spread d rs r =
        let d1 = start fl rnd now spread d in
        let (armed, same) = rounds-IsArmed rs d1 (start-IsArmed fl rnd now spread d) in
        let d' = rounds fl rnd mt round7 rs d1 in
        let n = same ∙ ap length (start-devices fl rnd now spread d) in
        subst (λ n. Keeps n (made r d') (round fl rnd mt round7 r d')) n (round-Keeps r d' armed)
