-- ===== src/Realtime/Registry.antt =====
-- src/geotrack/realtime/registry.py: `ConnectionRegistry`. A connection is a number, its identity.
-- What runs between two awaits is one step; the hooks are awaited between two of them.
pub mod Settled
pub mod Life
use Prim.Native.String.{String}
use geotrack.Prelude.{
  ℕ, suc, ◌+◌, ◌-◌, Bool, true, false, List, [], ◌∷◌, ◌++◌, Option, none, some, if◌then◌else◌, leb,
  length, ℕ_discrete,
}
use geotrack.Prelude.Dict.{Dict, get, put, pop}
use geotrack.Prelude.Index.{member, add, discard, or_empty, keep_nonempty}
use geotrack.Prelude.Text.{String-discrete}

-- where the holder of a user's lock stands: nowhere, or awaiting a hook
pub data Activity : Type 0 where
  idle calling_first calling_last : Activity

-- `_Sync`
pub record Sync : Type 0 where
  pub activity : Activity
  pub callers : ℕ

pub record Registry : Type 0 where
  pub by_user : Dict String (List ℕ)
  pub subscribed : List String
  pub syncs : Dict String Sync

unfoldable pub new_registry : Registry
new_registry = record { by_user = []; subscribed = []; syncs = [] }

abbrev pub or_fresh : Option Sync → Sync
or_fresh none = record { activity = idle; callers = 0 }
or_fresh (some sync) = sync

-- `_sync_user` up to its lock
unfoldable pub join_sync : String → Registry → Registry
join_sync user r =
    let sync = or_fresh (get String-discrete user r.syncs) in
    record r {
      syncs = put String-discrete user (record sync { callers = suc sync.callers }) r.syncs;
    }

-- its `finally`
unfoldable pub leave_sync : String → Sync → Registry → Registry
leave_sync user sync r =
    if leb sync.callers 1 then record r { syncs = pop String-discrete user r.syncs } else record r {
      syncs =
          put String-discrete user (record { activity = idle; callers = sync.callers - 1 }) r.syncs;
    }

unfoldable pub call_hook : String → Sync → Activity → Registry → Registry
call_hook user sync activity r = record r {
  syncs = put String-discrete user (record sync { activity = activity }) r.syncs;
}

abbrev pub is_some : {A : Type 0} → Option A → Bool
is_some none = false
is_some (some a) = true

-- the test of the loop, by whether the user is wanted and whether subscribed
unfoldable pub choose : String → Sync → Bool → Bool → Registry → Registry
unfolding leave_sync call_hook
choose user sync true true r = leave_sync user sync r
choose user sync false false r = leave_sync user sync r
choose user sync true false r = call_hook user sync calling_first r
choose user sync false true r = call_hook user sync calling_last r

unfoldable pub loop_test : String → Sync → Registry → Registry
unfolding choose
loop_test user sync r =
    choose user sync (is_some (get String-discrete user r.by_user))
      (member String-discrete user r.subscribed) r

-- a caller gets the lock
abbrev pub locked : String → Option Sync → Registry → Registry
locked user none r = r
locked user (some sync) r = elim sync.activity [ idle ↦ loop_test user sync r | _ ↦ r ]

unfoldable pub lock : String → Registry → Registry
unfolding loop_test
lock user r = locked user (get String-discrete user r.syncs) r

-- a hook returns, and the loop tests again
abbrev pub returned : String → Option Sync → Registry → Registry
returned user none r = r
returned user (some sync) r = elim sync.activity [
  | idle ↦ r
  | calling_first ↦
      loop_test user (record sync { activity = idle })
        (record r { subscribed = add String-discrete user r.subscribed })
  | calling_last ↦
      loop_test user (record sync { activity = idle })
        (record r { subscribed = discard String-discrete user r.subscribed })
]

unfoldable pub hook_returns : String → Registry → Registry
unfolding loop_test
hook_returns user r = returned user (get String-discrete user r.syncs) r

-- `add` under its lock: whether the connection is admitted
unfoldable pub admit : ℕ → String → ℕ → Registry → Bool × Registry
unfolding join_sync
admit connection user limit r =
    let connections = or_empty String-discrete ℕ_discrete (get String-discrete user r.by_user) in
    if leb limit (length connections) then (false, r) else (
      true,
      join_sync user (record r {
        by_user = put String-discrete user (add ℕ_discrete connection connections) r.by_user;
      }),
    )

abbrev pub withdrawn : ℕ → String → Option (List ℕ) → Registry → Registry
withdrawn connection user none r = r
withdrawn connection user (some connections) r =
    if member ℕ_discrete connection connections
    then join_sync user (record r {
      by_user =
          keep_nonempty String-discrete ℕ_discrete user (discard ℕ_discrete connection connections)
            r.by_user;
    })
    else r

-- `remove`
unfoldable pub withdraw : ℕ → String → Registry → Registry
unfolding join_sync
withdraw connection user r = withdrawn connection user (get String-discrete user r.by_user) r

unfoldable pub for_user : String → Registry → List ℕ
for_user user r = or_empty String-discrete ℕ_discrete (get String-discrete user r.by_user)

abbrev pub connections_in : Dict String (List ℕ) → List ℕ
connections_in [] = []
connections_in ((user, connections) ∷ rest) = connections ++ connections_in rest

unfoldable pub all : Registry → List ℕ
all r = connections_in r.by_user

unfoldable pub count : Registry → ℕ
count r = length (connections_in r.by_user)
