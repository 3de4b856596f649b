-- ===== src/Realtime/Gateway/FanOut.antt =====
-- A tick spares work, and no client can tell.
use geotrack.Prelude.{
  ◌≡◌, refl, sym, ap, false, ◌||◌, List, [], ◌∷◌, some, if◌then◌else◌, any, map, Bool-cases,
  Option-cases, inl, inr, arith,
}
use geotrack.Prelude.Int.{ℤ, pos, leb_ℤ}
use geotrack.Prelude.Dict.{Dict, get}
use geotrack.Prelude.Text.{Bytes}
use geotrack.Float.{Floats}
use geotrack.Realtime.Grid.{Cell, CellRect}
use geotrack.Realtime.Hub.{Hub, TickDelta, Departure, drain, discard_pending, chunks_of}
use geotrack.Realtime.Protocol.{Wire}
use geotrack.Realtime.Connection.{
  Connection, wants_positions, chunks_in_column, chunks_in_columns, chunks_by_cell, chunks_by_delta,
  visible_chunks, removed_ids, offer_visible, offer_positions,
}
use geotrack.Realtime.Gateway.{is_empty, offer_watching, fan_out}

chunks_in_column_nothing : (x : ℤ) (ys : List ℤ) → chunks_in_column [] x ys ≡ []
unfolding chunks_in_column get
chunks_in_column_nothing x [] = refl
chunks_in_column_nothing x (y ∷ ys) = chunks_in_column_nothing x ys

chunks_in_columns_nothing : (xs ys : List ℤ) → chunks_in_columns [] xs ys ≡ []
unfolding chunks_in_columns
chunks_in_columns_nothing [] ys = refl
chunks_in_columns_nothing (x ∷ xs) ys =
    rw (chunks_in_column_nothing x ys, chunks_in_columns_nothing xs ys) refl

chunks_by_cell_nothing : (rects : List CellRect) → chunks_by_cell [] rects ≡ []
unfolding chunks_by_cell
chunks_by_cell_nothing [] = refl
chunks_by_cell_nothing (r ∷ rects) =
    rw (chunks_in_columns_nothing, chunks_by_cell_nothing rects) refl

module _ {fl : Floats} where
  visible_chunks_nothing :
      (c : Connection fl) (t : ℤ) (rects : List CellRect)
      → visible_chunks c (record { t_ms = t; chunks = []; departures = [] }) rects ≡ []
  unfolding visible_chunks chunks_by_delta
  visible_chunks_nothing c t rects = elim (Bool-cases (leb_ℤ c.viewport_cells (pos 0))) [
    | inl e ↦ rw e (chunks_by_cell_nothing rects)
    | inr e ↦ rw e refl
  ]

  module _ (w : Wire fl) where
    offer_visible_nothing :
        (c : Connection fl) (t : ℤ) (rects : List CellRect)
        → offer_visible w (record { t_ms = t; chunks = []; departures = [] }) rects c ≡ c
    unfolding offer_visible removed_ids
    offer_visible_nothing c t rects = rw (visible_chunks_nothing c t rects) refl

    offer_positions_nothing :
        (c : Connection fl) (t : ℤ)
        → offer_positions w (record { t_ms = t; chunks = []; departures = [] }) c ≡ c
    unfolding offer_positions
    offer_positions_nothing c t = elim (Option-cases c.viewport) [
      | inl e ↦ rw e refl
      | inr (rects, e) ↦ elim (Bool-cases (c.closing || c.needs_snapshot)) [
        | inl shut ↦ rw (e, shut) refl
        | inr ready ↦
            let nothing = offer_visible_nothing c t rects in ground (arith, e, ready, nothing)
      ]
    ]

    -- a client that is not watching takes no offer
    offer_positions_unwatched :
        (delta : TickDelta) (c : Connection fl)
        → wants_positions c ≡ false
        → offer_positions w delta c ≡ c
    unfolding offer_positions wants_positions
    offer_positions_unwatched delta c h = elim (Option-cases c.viewport) [
      | inl e ↦ rw e refl
      | inr (rects, e) ↦ elim (Bool-cases c.closing) [
        | inl shut ↦ rw (e, shut) refl
        | inr ready ↦ absurd (ground (arith, e, ready, h))
      ]
    ]

    offer_watching-map :
        (delta : TickDelta) (cs : List (Connection fl))
        → offer_watching w delta cs ≡ map (offer_positions w delta) cs
    unfolding offer_watching
    offer_watching-map delta [] = refl
    offer_watching-map delta (c ∷ cs) = elim (Bool-cases (wants_positions c)) [
      | inl e ↦ rw (e, offer_watching-map delta cs) refl
      | inr e ↦ rw (e, offer_watching-map delta cs, offer_positions_unwatched delta c e) refl
    ]

    map-offer_nothing :
        (t : ℤ) (cs : List (Connection fl))
        → map (offer_positions w (record { t_ms = t; chunks = []; departures = [] })) cs ≡ cs
    map-offer_nothing t [] = refl
    map-offer_nothing t (c ∷ cs) = rw (offer_positions_nothing c t, map-offer_nothing t cs) refl

    map-offer_unwatched :
        (delta : TickDelta) (cs : List (Connection fl))
        → any wants_positions cs ≡ false
        → map (offer_positions w delta) cs ≡ cs
    map-offer_unwatched delta [] h = refl
    map-offer_unwatched delta (c ∷ cs) h =
        let mine : wants_positions c ≡ false = ground (arith, h) in
        let others : any wants_positions cs ≡ false = ground (arith, h) in
        rw (offer_positions_unwatched delta c mine, map-offer_unwatched delta cs others) refl

    offered :
        (delta : TickDelta) (cs : List (Connection fl))
        → (if is_empty delta then cs else offer_watching w delta cs)
          ≡ map (offer_positions w delta) cs
    offered delta cs = by_parts delta.t_ms delta.chunks delta.departures
      where
        by_parts :
            (t : ℤ) (chunks : Dict Cell Bytes) (departures : Dict Cell (List Departure))
            → let d : TickDelta = record { t_ms = t; chunks = chunks; departures = departures } in
              (if is_empty d then cs else offer_watching w d cs) ≡ map (offer_positions w d) cs
        by_parts t [] [] = sym (map-offer_nothing t cs)
        by_parts t [] (d ∷ ds) = offer_watching-map _ cs
        by_parts t (c ∷ chunks) ds = offer_watching-map _ cs

    drain-discard_pending :
        (t : ℤ) (h h' : Hub fl) (delta : TickDelta)
        → drain fl w.encode t h ≡ some (delta, h')
        → discard_pending fl h ≡ h'
    unfolding drain discard_pending
    drain-discard_pending t h h' delta e =
        elim (Option-cases (chunks_of fl w.encode h.latest h.changed)) [
          | inl n ↦ absurd (ground (arith, n, e))
          | inr (chunks, s) ↦ ground (arith, s, e)
        ]

    -- Where the hub can be drained, a tick leaves the hub and every connection as they would be if it
    -- were drained and its delta offered to every connection at every tick: not to drain it while
    -- nobody is watching, not to offer an empty delta, and to pass over the others is never seen.
    pub fan_out-reference :
        (h h' : Hub fl) (cs : List (Connection fl)) (t : ℤ) (delta : TickDelta)
        → drain fl w.encode t h ≡ some (delta, h')
        → fan_out w h cs t ≡ some (h', map (offer_positions w delta) cs)
    unfolding fan_out
    fan_out-reference h h' cs t delta e = elim (Bool-cases (any wants_positions cs)) [
      | inl watched ↦ rw (watched, e) (ap (λ x. some (h', x)) (offered delta cs))
      | inr unwatched ↦
          rw
            (
              unwatched,
              map-offer_unwatched delta cs unwatched,
              drain-discard_pending t h h' delta e,
            )
            refl
    ]
