-- ===== src/Realtime/Registry/Settled.antt =====
-- A replica is subscribed for exactly the users whose sessions it holds, once their hooks are done.
use Prim.Native.String.{String}
use geotrack.Prelude.{
  ℕ, suc, ◌-◌, ◌≤◌, ◌≡◌, ◌≢◌, refl, sym, ◌∙◌, Bool, true, false, List, Option, none, some, leb,
  length, Bool-cases, Option-cases, inl, inr, arith, if_neg,
}
use geotrack.Prelude.Dict.{Dict, get, put, pop, get-put_self, get-put_ne, get-pop_self, get-pop_ne}
use geotrack.Prelude.Index.{member, add, discard, member-add, member-discard}
use geotrack.Prelude.Text.{String-discrete}
use geotrack.Realtime.Registry.{
  Activity, idle, calling_first, calling_last, Sync, Registry, or_fresh, join_sync, leave_sync,
  call_hook, is_some, choose, loop_test, lock, hook_returns,
}

-- no more sessions than the limit, and none is kept as an empty set
abbrev pub Sized : ℕ → Option (List ℕ) → Type 0
Sized limit none = Unit
Sized limit (some connections) = (1 ≤ length connections) × (length connections ≤ limit)

-- With no `_sync_user` under way, the subscription is what the sessions ask for.
abbrev pub IsSynced : Option (List ℕ) → Bool → Option Sync → Type 0
IsSynced connections held none = is_some connections ≡ held
IsSynced connections held (some sync) = 1 ≤ sync.callers

abbrev pub At : ℕ → String → Registry → Type 0
At limit user r =
    Sized limit (get String-discrete user r.by_user)
    × IsSynced (get String-discrete user r.by_user) (member String-discrete user r.subscribed)
        (get String-discrete user r.syncs)

abbrev pub Sound : ℕ → Registry → Type 0
Sound limit r = (user : String) → At limit user r

-- every other user
abbrev pub Elsewhere : ℕ → String → Registry → Type 0
Elsewhere limit user r = (v : String) → user ≢ v → At limit v r

with_syncs :
    (limit : ℕ) (user : String) (r : Registry) (syncs : Dict String Sync)
    → Elsewhere limit user r
    → ((v : String) → user ≢ v → get String-discrete v syncs ≡ get String-discrete v r.syncs)
    → At limit user (record r { syncs = syncs })
    → Sound limit (record r { syncs = syncs })
with_syncs limit user r syncs others same here v = elim (String-discrete user v) [
  | yes p ↦ rw (← p) here
  | no p ↦ rw (same v p) (others v p)
]

module _ (limit : ℕ) (user : String) (r : Registry) (others : Elsewhere limit user r)
    (sized : Sized limit (get String-discrete user r.by_user)) where
  leave_sync-Sound :
      (sync : Sync)
      → is_some (get String-discrete user r.by_user) ≡ member String-discrete user r.subscribed
      → Sound limit (leave_sync user sync r)
  unfolding leave_sync
  leave_sync-Sound sync settled = elim (Bool-cases (leb sync.callers 1)) [
    | inl last ↦ rw last (
        with_syncs limit user r (pop String-discrete user r.syncs) others
          (λ v p. get-pop_ne String-discrete user v r.syncs p)
          (sized, rw (get-pop_self String-discrete user r.syncs) settled))
    | inr more ↦ rw more (
        with_syncs limit user r
          (put String-discrete user (record { activity = idle; callers = sync.callers - 1 })
            r.syncs)
          others (λ v p. get-put_ne String-discrete user v _ r.syncs p)
          (
            sized,
            rw
                (get-put_self String-discrete user
                  (record { activity = idle; callers = sync.callers - 1 }) r.syncs)
                (ground (arith, more)),
          ))
  ]

  call_hook-Sound :
      (sync : Sync) (activity : Activity)
      → 1 ≤ sync.callers
      → Sound limit (call_hook user sync activity r)
  unfolding call_hook
  call_hook-Sound sync activity called =
      with_syncs limit user r
        (put String-discrete user (record sync { activity = activity }) r.syncs) others
        (λ v p. get-put_ne String-discrete user v _ r.syncs p)
        (
          sized,
          rw (get-put_self String-discrete user (record sync { activity = activity }) r.syncs)
              called,
        )

  loop_test-Sound : (sync : Sync) → 1 ≤ sync.callers → Sound limit (loop_test user sync r)
  unfolding loop_test
  loop_test-Sound sync called =
      chosen (is_some (get String-discrete user r.by_user))
        (member String-discrete user r.subscribed) refl refl
    where
      chosen :
          (wanted held : Bool)
          → is_some (get String-discrete user r.by_user) ≡ wanted
          → member String-discrete user r.subscribed ≡ held
          → Sound limit (choose user sync wanted held r)
      chosen true true p q = unfold choose in leave_sync-Sound sync (p ∙ sym q)
      chosen false false p q = unfold choose in leave_sync-Sound sync (p ∙ sym q)
      chosen true false p q = unfold choose in call_hook-Sound sync calling_first called
      chosen false true p q = unfold choose in call_hook-Sound sync calling_last called

called_once :
    (limit : ℕ) (user : String) (r : Registry) (sync : Sync)
    → Sound limit r
    → get String-discrete user r.syncs ≡ some sync
    → 1 ≤ sync.callers
called_once limit user r sync sound e = rw e at (sound user).1

module _ (limit : ℕ) (user : String) (r : Registry) (sound : Sound limit r) where
  pub lock-Sound : Sound limit (lock user r)
  unfolding lock
  lock-Sound = elim (Option-cases (get String-discrete user r.syncs)) [
    | inl e ↦ rw e sound
    | inr (sync, e) ↦ rw e (by_activity sync e sync.activity)
  ]
    where
      by_activity :
          (sync : Sync)
          → get String-discrete user r.syncs ≡ some sync
          → (activity : Activity)
          → Sound limit (elim activity [ idle ↦ loop_test user sync r | _ ↦ r ])
      by_activity sync e idle =
          loop_test-Sound limit user r (λ v p. sound v) (sound user).0 sync
            (called_once limit user r sync sound e)
      by_activity sync e calling_first = sound
      by_activity sync e calling_last = sound

  pub hook_returns-Sound : Sound limit (hook_returns user r)
  unfolding hook_returns
  hook_returns-Sound = elim (Option-cases (get String-discrete user r.syncs)) [
    | inl e ↦ rw e sound
    | inr (sync, e) ↦ rw e (by_activity sync e sync.activity)
  ]
    where
      by_activity :
          (sync : Sync)
          → get String-discrete user r.syncs ≡ some sync
          → (activity : Activity)
          → Sound limit (elim activity [
            | idle ↦ r
            | calling_first ↦
                loop_test user
                  (record sync { activity = idle })
                  (record r { subscribed = add String-discrete user r.subscribed })
            | calling_last ↦
                loop_test user
                  (record sync { activity = idle })
                  (record r { subscribed = discard String-discrete user r.subscribed })
          ])
      by_activity sync e idle = sound
      by_activity sync e calling_first =
          loop_test-Sound limit user
            (record r { subscribed = add String-discrete user r.subscribed })
            (λ v p.
              rw
                (
                  member-add,
                  if_neg (String-discrete user v) p true (member String-discrete v r.subscribed),
                )
                (sound v))
            (sound user).0 (record sync { activity = idle }) (called_once limit user r sync sound e)
      by_activity sync e calling_last =
          loop_test-Sound limit user
            (record r { subscribed = discard String-discrete user r.subscribed })
            (λ v p.
              rw
                (
                  member-discard,
                  if_neg (String-discrete user v) p false (member String-discrete v r.subscribed),
                )
                (sound v))
            (sound user).0 (record sync { activity = idle }) (called_once limit user r sync sound e)

-- A change of one user's sessions is followed by `_sync_user` for them.
pub join_sync-Sound :
    (limit : ℕ) (user : String) (r : Registry)
    → Elsewhere limit user r
    → Sized limit (get String-discrete user r.by_user)
    → Sound limit (join_sync user r)
unfolding join_sync
join_sync-Sound limit user r others sized =
    with_syncs limit user r (put String-discrete user joined r.syncs) others
      (λ v p. get-put_ne String-discrete user v joined r.syncs p)
      (sized, rw (get-put_self String-discrete user joined r.syncs) (omega arith))
  where
    joined : Sync
    joined = record (or_fresh (get String-discrete user r.syncs)) {
      callers = suc (or_fresh (get String-discrete user r.syncs)).callers;
    }
