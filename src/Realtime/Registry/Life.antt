-- ===== src/Realtime/Registry/Life.antt =====
-- Sessions come and go, and the subscriptions settle.
use Prim.Native.String.{String}
use geotrack.Prelude.{
  ℕ, ◌+◌, ◌≤◌, ◌≡◌, refl, false, List, [], ◌∷◌, Option, some, leb, length, ℕ_discrete, Bool-cases,
  Option-cases, inl, inr, arith,
}
use geotrack.Prelude.Dict.{get, put, pop, get-put_self, get-put_ne, get-pop_self, get-pop_ne}
use geotrack.Prelude.Index.{member, add, discard, or_empty, keep_nonempty}
use geotrack.Prelude.Text.{String-discrete}
use geotrack.Realtime.Registry.{
  Registry, new_registry, join_sync, lock, hook_returns, admit, withdraw,
}
use geotrack.Realtime.Registry.Settled.{
  Sized, Sound, lock-Sound, hook_returns-Sound, join_sync-Sound,
}

length-add_le : (c : ℕ) (s : List ℕ) → length (add ℕ_discrete c s) ≤ length s + 1
unfolding add
length-add_le c [] = omega arith
length-add_le c (x ∷ s) = ground (arith, length-add_le c s)

le-length-add : (c : ℕ) (s : List ℕ) → 1 ≤ length (add ℕ_discrete c s)
unfolding add
le-length-add c [] = omega arith
le-length-add c (x ∷ s) = ground arith

length-discard_le : (c : ℕ) (s : List ℕ) → length (discard ℕ_discrete c s) ≤ length s
unfolding discard
length-discard_le c [] = omega arith
length-discard_le c (x ∷ s) = ground (arith, length-discard_le c s)

module _ (limit connection : ℕ) (user : String) (r : Registry) (sound : Sound limit r) where
  add-Sized :
      (o : Option (List ℕ))
      → leb limit (length (or_empty String-discrete ℕ_discrete o)) ≡ false
      → Sized limit (some (add ℕ_discrete connection (or_empty String-discrete ℕ_discrete o)))
  add-Sized o few =
      let s = or_empty String-discrete ℕ_discrete o in
      let longer = length-add_le connection s in
      (le-length-add connection s, ground (arith, few, longer))

  admit-Sound : Sound limit (admit connection user limit r).1
  unfolding admit
  admit-Sound = elim (Bool-cases (leb limit (length connections))) [
    | inl full ↦ rw full sound
    | inr few ↦ rw few (
        join_sync-Sound limit user
          (record r {
            by_user = put String-discrete user (add ℕ_discrete connection connections) r.by_user;
          })
          (λ v p.
            rw
              (get-put_ne String-discrete user v (add ℕ_discrete connection connections) r.by_user
                p)
              (sound v))
          (rw (get-put_self String-discrete user (add ℕ_discrete connection connections) r.by_user)
            (add-Sized (get String-discrete user r.by_user) few)))
  ]
    where
      connections : List ℕ
      connections = or_empty String-discrete ℕ_discrete (get String-discrete user r.by_user)

  keep_nonempty-Sound :
      (s : List ℕ)
      → length s ≤ limit
      → Sound limit (
          join_sync user
            (record r { by_user = keep_nonempty String-discrete ℕ_discrete user s r.by_user }))
  unfolding keep_nonempty
  keep_nonempty-Sound [] short =
      join_sync-Sound limit user (record r { by_user = pop String-discrete user r.by_user })
        (λ v p. rw (get-pop_ne String-discrete user v r.by_user p) (sound v))
        (rw (get-pop_self String-discrete user r.by_user) tt)
  keep_nonempty-Sound (x ∷ s) short =
      join_sync-Sound limit user (record r { by_user = put String-discrete user (x ∷ s) r.by_user })
        (λ v p. rw (get-put_ne String-discrete user v (x ∷ s) r.by_user p) (sound v))
        (rw (get-put_self String-discrete user (x ∷ s) r.by_user) (omega arith, short))

  withdraw-Sound : Sound limit (withdraw connection user r)
  unfolding withdraw
  withdraw-Sound = elim (Option-cases (get String-discrete user r.by_user)) [
    | inl e ↦ rw e sound
    | inr (s, e) ↦ elim (Bool-cases (member ℕ_discrete connection s)) [
      | inl present ↦
          rw (e, present)
            (keep_nonempty-Sound (discard ℕ_discrete connection s) (
              let sized : Sized limit (some s) = rw e at (sound user).0 in
              let shorter = length-discard_le connection s in omega (arith, sized.1, shorter)))
      | inr absent ↦ rw (e, absent) sound
    ]
  ]

-- What happens on a replica, in any order: the calls of `add` and `remove`, and how far the
-- synchronisations they start get.
pub data Event : Type 0 where
  admits withdraws : ℕ → String → Event
  locks hook_done : String → Event

abbrev pub after_event : ℕ → Event → Registry → Registry
after_event limit (admits connection user) r = (admit connection user limit r).1
after_event limit (withdraws connection user) r = withdraw connection user r
after_event limit (locks user) r = lock user r
after_event limit (hook_done user) r = hook_returns user r

abbrev pub after_events : ℕ → List Event → Registry → Registry
after_events limit [] r = r
after_events limit (event ∷ events) r = after_events limit events (after_event limit event r)

after_events-Sound :
    (limit : ℕ) (events : List Event) (r : Registry)
    → Sound limit r
    → Sound limit (after_events limit events r)
after_events-Sound limit [] r sound = sound
after_events-Sound limit (event ∷ events) r sound =
    after_events-Sound limit events (after_event limit event r) (each event)
  where
    each : (event : Event) → Sound limit (after_event limit event r)
    each (admits connection user) = admit-Sound limit connection user r sound
    each (withdraws connection user) = withdraw-Sound limit connection user r sound
    each (locks user) = lock-Sound limit user r sound
    each (hook_done user) = hook_returns-Sound limit user r sound

-- However the sessions of any users connect and disconnect on a replica, and whenever the hooks
-- they await return: no user has more sessions than the limit or an empty set of them, and a user
-- for whom no synchronisation is under way is subscribed exactly if the replica holds one of their
-- sessions.
pub new_registry-Sound :
    (limit : ℕ) (events : List Event) → Sound limit (after_events limit events new_registry)
unfolding new_registry
new_registry-Sound limit events =
    after_events-Sound limit events new_registry
      (λ user. (unfold get in tt, unfold get member in refl))
