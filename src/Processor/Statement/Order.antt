-- ===== src/Processor/Statement/Order.antt =====
-- The alerts of a batch stand in the order of the reports that raised them.
use geotrack.Prelude.{
  ℕ, suc, ◌<◌, ◌≡◌, true, List, [], ◌∷◌, arith, inl, inr, Option-cases, Bool-cases,
}
use geotrack.Prelude.Int.{ℤ, leb_ℤ}
use geotrack.Float.{Floats}
use geotrack.Processor.Tables.{LocationRecord, Alert, Tables, Event, Database}
use geotrack.Processor.Statement.{
  new_alerts, insert_in_order, in_order, events, apply_batch, comes_before,
}

module _ {fl : Floats} where
  -- no event of the list is earlier than a time
  abbrev NotBefore : ℤ → List (Event fl) → Type 0
  NotBefore t [] = Unit
  NotBefore t (e ∷ es) = (leb_ℤ t e.report.reported_ms ≡ true) × NotBefore t es

  abbrev InTime : List (Event fl) → Type 0
  InTime [] = Unit
  InTime (e ∷ es) = NotBefore e.report.reported_ms es × InTime es

  -- the alerts after an identity and a time: identities go up, times never go back
  abbrev pub Ordered : ℕ → ℤ → List (Alert fl) → Type 0
  Ordered id t [] = Unit
  Ordered id t (a ∷ alerts) =
      (id < a.id) × (leb_ℤ t a.occurred_at ≡ true) × Ordered a.id a.occurred_at alerts

  NotBefore-trans :
      (t u : ℤ) (es : List (Event fl)) → leb_ℤ t u ≡ true → NotBefore u es → NotBefore t es
  NotBefore-trans t u [] h n = tt
  NotBefore-trans t u (e ∷ es) h n = (ground arith, NotBefore-trans t u es h n.1)

  module _ (db : Database fl) where
    insert_in_order-NotBefore :
        (t : ℤ) (e : Event fl) (es : List (Event fl))
        → leb_ℤ t e.report.reported_ms ≡ true
        → NotBefore t es
        → NotBefore t (insert_in_order db e es)
    unfolding insert_in_order
    insert_in_order-NotBefore t e [] h n = (h, tt)
    insert_in_order-NotBefore t e (f ∷ fs) h n = elim (Bool-cases (comes_before db e f)) [
      | inl first ↦ rw (first, insert_in_order) (h, n)
      | inr after ↦ rw (after, insert_in_order) (n.0, insert_in_order-NotBefore t e fs h n.1)
    ]

    insert_in_order-InTime :
        (e : Event fl) (es : List (Event fl)) → InTime es → InTime (insert_in_order db e es)
    unfolding insert_in_order
    insert_in_order-InTime e [] s = (tt, tt)
    insert_in_order-InTime e (f ∷ fs) s = elim (Bool-cases (comes_before db e f)) [
      | inl first ↦
          let le : leb_ℤ e.report.reported_ms f.report.reported_ms ≡ true = ground arith in
          rw (first, insert_in_order)
            ((le, NotBefore-trans e.report.reported_ms f.report.reported_ms fs le s.0), s)
      | inr after ↦
          let le : leb_ℤ f.report.reported_ms e.report.reported_ms ≡ true = ground arith in
          rw (after, insert_in_order)
            (
              insert_in_order-NotBefore f.report.reported_ms e fs le s.0,
              insert_in_order-InTime e fs s.1,
            )
    ]

    in_order-InTime : (es : List (Event fl)) → InTime (in_order db es)
    unfolding in_order
    in_order-InTime [] = tt
    in_order-InTime (e ∷ es) = insert_in_order-InTime e (in_order db es) (in_order-InTime es)

  abbrev pub AlertsInOrder : List (Alert fl) → Type 0
  AlertsInOrder [] = Unit
  AlertsInOrder (a ∷ alerts) = Ordered a.id a.occurred_at alerts

-- A sequence only goes up.
abbrev pub Rises : (ℕ → ℕ) → Type 0
Rises id = (n : ℕ) → id n < id (suc n)

module _ {fl : Floats} (db : Database fl) (rises : Rises db.alert_id) (now : ℤ) where
  new_alerts-Ordered :
      (id : ℕ) (t : ℤ) (es : List (Event fl)) (next : ℕ)
      → id < db.alert_id next
      → NotBefore t es
      → InTime es
      → Ordered id t (new_alerts db now es next)
  unfolding new_alerts
  new_alerts-Ordered id t [] next below n s = tt
  new_alerts-Ordered id t (e ∷ es) next below n s = elim (Option-cases e.kind) [
    | inl silent ↦ rw (silent, new_alerts) (new_alerts-Ordered id t es next below n.1 s.1)
    | inr (kind, raised) ↦
        rw (raised, new_alerts)
          (
            below,
            n.0,
            new_alerts-Ordered (db.alert_id next) e.report.reported_ms es (suc next) (rises next)
                s.0 s.1,
          )
  ]

  new_alerts-AlertsInOrder :
      (es : List (Event fl)) (next : ℕ) → InTime es → AlertsInOrder (new_alerts db now es next)
  unfolding new_alerts
  new_alerts-AlertsInOrder [] next s = tt
  new_alerts-AlertsInOrder (e ∷ es) next s = elim (Option-cases e.kind) [
    | inl silent ↦ rw (silent, new_alerts) (new_alerts-AlertsInOrder es next s.1)
    | inr (kind, raised) ↦
        rw (raised, new_alerts)
          (new_alerts-Ordered (db.alert_id next) e.report.reported_ms es (suc next) (rises next) s.0
            s.1)
  ]

-- If the sequence of the alerts' identities only goes up, the identities of the alerts of a batch go
-- up in the order in which they are returned, and their times never go back.
pub apply_batch-AlertsInOrder :
    {fl : Floats} (db : Database fl) (now : ℤ) (rs : List (LocationRecord fl)) (t : Tables fl)
    → Rises db.alert_id
    → AlertsInOrder (apply_batch db now rs t).1.1
unfolding apply_batch
apply_batch-AlertsInOrder db now rs t rises =
    new_alerts-AlertsInOrder db rises now (in_order db (events db rs t)) t.next_alert
      (in_order-InTime db (events db rs t))
