-- ===== src/Processor/Statement/Events.antt =====
-- What the events of the statement do to the presence of a device in a zone.
use Prim.Native.String.{String}
use geotrack.Prelude.{
  ◌≡◌, refl, Bool, true, false, List, [], ◌∷◌, ◌++◌, map, Option, none, some, ite, if◌then◌else◌,
  arith, not,
}
use mathlib.Core.List.{map-append}
use geotrack.Prelude.Dict.{Dict, get, put, pop, get-put, get-pop}
use geotrack.Prelude.Text.{String-discrete as same_id}
use geotrack.Float.{Floats}
use geotrack.Processor.Tables.{
  ZoneId, Key, Key-discrete as same_key, LocationRecord, Geozone, ZonePresence, State, entered,
  stays, left, Event,
}
use geotrack.Processor.Reports.{reported}
use geotrack.Processor.Transitions.{Hit, entering, is_hit_in, exits_of, exits, event}
use geotrack.Processor.Statement.{key, upsert_presence, delete_presence, upserted}

abbrev pub present {ℓ} : {A : Type ℓ} → Option A → Bool
present none = false
present (some _) = true

abbrev leaves : State → Bool
leaves left = true
leaves entered = false
leaves stays = false

module _ {fl : Floats} where
  -- whether the events hold one of the key that does not leave, or that does
  pub opened : Key → List (Event fl) → Bool
  opened k [] = false
  opened k (e ∷ es) =
      ite (same_key (key e) k) (if leaves e.state then opened k es else true) (opened k es)

  pub closed : Key → List (Event fl) → Bool
  closed k [] = false
  closed k (e ∷ es) =
      ite (same_key (key e) k) (if leaves e.state then true else closed k es) (closed k es)

  pub present-upsert_presence :
      (k : Key) (es : List (Event fl)) (p : Dict Key ZonePresence)
      → present (get same_key k (upsert_presence es p))
        ≡ (if opened k es then true else present (get same_key k p))
  unfolding upsert_presence opened
  present-upsert_presence k [] p = refl
  present-upsert_presence k (e ∷ es) p =
      let p' = put same_key (key e) (upserted (get same_key (key e) p) e) p in
      ground (
        arith,
        present-upsert_presence k es p,
        present-upsert_presence k es p',
        get-put same_key (key e) k (upserted (get same_key (key e) p) e) p,
      )

  pub get-upsert_presence :
      (k : Key) (es : List (Event fl)) (p : Dict Key ZonePresence)
      → opened k es ≡ false
      → get same_key k (upsert_presence es p) ≡ get same_key k p
  unfolding upsert_presence opened
  get-upsert_presence k [] p h = refl
  get-upsert_presence k (e ∷ es) p h =
      let p' = put same_key (key e) (upserted (get same_key (key e) p) e) p in
      ground (
        arith,
        get-upsert_presence k es p,
        get-upsert_presence k es p',
        get-put same_key (key e) k (upserted (get same_key (key e) p) e) p,
      )

  pub get-delete_presence :
      (k : Key) (es : List (Event fl)) (p : Dict Key ZonePresence)
      → get same_key k (delete_presence es p) ≡ (if closed k es then none else get same_key k p)
  unfolding delete_presence closed
  get-delete_presence k [] p = refl
  get-delete_presence k (e ∷ es) p = ground (
    arith,
    get-delete_presence k es p,
    get-delete_presence k es (pop same_key (key e) p),
    get-pop same_key (key e) k p,
  )

  pub opened-append :
      (k : Key) (es fs : List (Event fl))
      → opened k (es ++ fs) ≡ (if opened k es then true else opened k fs)
  unfolding opened
  opened-append k [] fs = refl
  opened-append k (e ∷ es) fs = ground (arith, opened-append k es fs)

  pub closed-append :
      (k : Key) (es fs : List (Event fl))
      → closed k (es ++ fs) ≡ (if closed k es then true else closed k fs)
  unfolding closed
  closed-append k [] fs = refl
  closed-append k (e ∷ es) fs = ground (arith, closed-append k es fs)

  pub is_hit_in-append :
      (k : Key) (hs gs : List (Hit fl))
      → is_hit_in k (hs ++ gs) ≡ (if is_hit_in k hs then true else is_hit_in k gs)
  unfolding is_hit_in
  is_hit_in-append k [] gs = refl
  is_hit_in-append k (h ∷ hs) gs = ground (arith, is_hit_in-append k hs gs)

  abbrev pub entries : Dict Key ZonePresence → List (Hit fl) → List (Event fl)
  entries p hs = map event (map (entering p) hs)

  pub opened-entries :
      (k : Key) (p : Dict Key ZonePresence) (hs : List (Hit fl))
      → opened k (entries p hs) ≡ is_hit_in k hs
  unfolding opened is_hit_in event entering
  opened-entries k p [] = refl
  opened-entries k p ((r, id, z) ∷ hs) = ground (arith, opened-entries k p hs)

  pub closed-entries :
      (k : Key) (p : Dict Key ZonePresence) (hs : List (Hit fl)) → closed k (entries p hs) ≡ false
  unfolding closed event entering
  closed-entries k p [] = refl
  closed-entries k p ((r, id, z) ∷ hs) = ground (arith, closed-entries k p hs)

  module _ (hs : List (Hit fl)) (zones : Dict ZoneId (Geozone fl)) where
    opened-exits_of :
        (k : Key) (r : LocationRecord fl) (p : Dict Key ZonePresence)
        → opened k (map event (exits_of r hs zones p)) ≡ false
    unfolding opened exits_of event
    opened-exits_of k r [] = refl
    opened-exits_of k r (((id, d), q) ∷ p) = ground (arith, opened-exits_of k r p)

    closed-exits_of :
        (id d : String) (r : LocationRecord fl) (p : Dict Key ZonePresence)
        → closed (id, d) (map event (exits_of r hs zones p))
          ≡ ite
              (same_id r.device_id d)
              (if present (get same_key (id, d) p)
                then (if present (get same_id id zones) then not (is_hit_in (id, d) hs) else false)
                else false)
              false
    unfolding closed exits_of event get
    closed-exits_of id d r [] = ground arith
    closed-exits_of id d r (((jd, e), q) ∷ p) = ground (arith, closed-exits_of id d r p)

    pub opened-exits :
        (k : Key) (rs : List (LocationRecord fl)) (p : Dict Key ZonePresence)
        → opened k (map event (exits rs hs zones p)) ≡ false
    unfolding exits opened
    opened-exits k [] p = refl
    opened-exits k (r ∷ rs) p =
        rw (map-append event (exits_of r hs zones p) (exits rs hs zones p)) (
          ground (
            arith,
            opened-append k (map event (exits_of r hs zones p)) (map event (exits rs hs zones p)),
            opened-exits_of k r p,
            opened-exits k rs p,
          ))

    pub closed-exits :
        (id d : String) (rs : List (LocationRecord fl)) (p : Dict Key ZonePresence)
        → closed (id, d) (map event (exits rs hs zones p)) ≡ (
            if reported d rs
            then (if present (get same_key (id, d) p)
                then (if present (get same_id id zones) then not (is_hit_in (id, d) hs) else false)
                else false)
            else false)
    unfolding exits closed reported
    closed-exits id d [] p = refl
    closed-exits id d (r ∷ rs) p =
        rw (map-append event (exits_of r hs zones p) (exits rs hs zones p)) (
          ground (
            arith,
            closed-append (id, d) (map event (exits_of r hs zones p))
                (map event (exits rs hs zones p)),
            closed-exits_of id d r p,
            closed-exits id d rs p,
          ))
