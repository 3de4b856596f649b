-- ===== src/Realtime/Bridge.antt =====
-- src/geotrack/realtime/bridge.py: `RedisBridge`, the reader of the channels. Redis's answers to the
-- subscription commands are inputs; UTF-8 and `UUID` are parameters.
pub mod Converges
pub mod Delivers
use Prim.Native.String.{String, ◌++◌ as str_append}
use geotrack.Prelude.{
  ℕ, suc, Bool, true, false, not, ◌&&◌, List, [], ◌∷◌, ◌++◌, Option, none, some, if◌then◌else◌,
  select, any,
}
use geotrack.Prelude.Index.{member, add, discard}
use geotrack.Prelude.Result.{Result, ok, raise}
use geotrack.Prelude.Text.{Bytes, String-discrete}
use geotrack.Float.{Floats}
use geotrack.Messaging.Json.{Orjson}
use geotrack.Messaging.Codec.{CodecError, Casts, decode_positions}
use geotrack.Realtime.Hub.{Hub, PositionItem, apply}

abbrev pub positions_channel : String
positions_channel = "geo:ch:positions"

abbrev pub user_channel : String → String
user_channel user_id = str_append "geo:ch:user:" user_id

pub record Bridge : Type 0 where
  pub wanted : List String
  pub held : List String

unfoldable pub new_bridge : Bridge
new_bridge = record { wanted = positions_channel ∷ []; held = [] }

-- `a - b` of two sets
unfoldable pub minus : List String → List String → List String
minus xs ys = select (λ x. not (member String-discrete x ys)) xs

unfoldable pub is_empty : List String → Bool
is_empty [] = true
is_empty (x ∷ xs) = false

unfoldable pub in_sync : Bridge → Bool
unfolding minus is_empty
in_sync b = is_empty (minus b.held b.wanted) && is_empty (minus b.wanted b.held)

-- Whether `UNSUBSCRIBE` and `SUBSCRIBE` are answered in time.
pub record Commands : Type 0 where
  pub unsubscribes : Bool
  pub subscribes : Bool

unfoldable pub subscribe_missing : Bool → List String → Bridge → Bridge
subscribe_missing answered missing b =
    if is_empty missing then b else if answered then record b { held = b.held ++ missing } else b

-- the two commands; the second is not sent when the first fails
unfoldable pub send_commands : Commands → List String → List String → Bridge → Bridge
unfolding subscribe_missing minus is_empty
send_commands commands stale missing b =
    if is_empty stale
    then subscribe_missing commands.subscribes missing b
    else if commands.unsubscribes
    then subscribe_missing commands.subscribes missing (record b { held = minus b.held stale })
    else b

-- `_apply`
unfoldable pub apply_subscriptions : Commands → Bridge → Bool × Bridge
unfolding send_commands in_sync
apply_subscriptions commands b =
    let b' = send_commands commands (minus b.held b.wanted) (minus b.wanted b.held) b in
    (in_sync b', b')

unfoldable pub subscribe_user : Commands → String → Bridge → Bool × Bridge
unfolding apply_subscriptions
subscribe_user commands user_id b =
    apply_subscriptions commands
      (record b { wanted = add String-discrete (user_channel user_id) b.wanted })

unfoldable pub unsubscribe_user : Commands → String → Bridge → Bool × Bridge
unfolding apply_subscriptions
unsubscribe_user commands user_id b =
    apply_subscriptions commands
      (record b { wanted = discard String-discrete (user_channel user_id) b.wanted })

-- What the handlers have been given, and the messages that were dropped.
pub record Fanout (fl : Floats) : Type 0 where
  pub hub : Hub fl
  pub frames : List (String × Bytes)
  pub dropped : ℕ

-- What `_dispatch` takes from Python: a channel's text, the id of a user in it, and whether bytes
-- are UTF-8.
pub record Reading : Type 0 where
  pub user_id_from_channel : String → Option String
  pub is_utf_8 : Bytes → Bool

module _ {fl : Floats} (o : Orjson fl) (casts : Casts fl) (reading : Reading) where
  abbrev pub to_hub : Result CodecError (List (PositionItem fl)) → Fanout fl → Option (Fanout fl)
  to_hub (raise e) f = none
  to_hub (ok items) f = some (record f { hub = apply fl items f.hub })

  abbrev pub to_user : Option String → Bytes → Fanout fl → Option (Fanout fl)
  to_user none data_ f = none
  to_user (some user_id) data_ f =
      if reading.is_utf_8 data_
      then some (record f { frames = f.frames ++ ((user_id, data_) ∷ []) })
      else none

  -- `none` where it raises
  unfoldable pub dispatch : String → Bytes → Fanout fl → Option (Fanout fl)
  unfolding decode_positions apply
  dispatch channel data_ f = elim (String-discrete channel positions_channel) [
    | yes p ↦ to_hub (decode_positions casts o data_) f
    | no p ↦ to_user (reading.user_id_from_channel channel) data_ f
  ]

  unfoldable pub deliver : String → Bytes → Fanout fl → Fanout fl
  unfolding dispatch
  deliver channel data_ f = elim (dispatch channel data_ f) [
    | none ↦ record f { dropped = suc f.dropped }
    | some f' ↦ f'
  ]

-- One round of `_read`: the read raises, gives nothing, or gives a message; then what does not fit
-- is repaired, if it is time to.
pub data Read : Type 0 where
  fails quiet : Read
  message : String → Bytes → Read

module _ {fl : Floats} (o : Orjson fl) (casts : Casts fl) (reading : Reading) where
  abbrev pub repaired : Bool → Commands → Bridge → Bridge
  repaired due commands b = if not (in_sync b) && due then (apply_subscriptions commands b).1 else b

  unfoldable pub read_once : Read → Bool → Commands → Bridge → Fanout fl → Bridge × Fanout fl
  unfolding apply_subscriptions in_sync deliver
  read_once fails due commands b f = ((apply_subscriptions commands (record b { held = [] })).1, f)
  read_once quiet due commands b f = (repaired due commands b, f)
  read_once (message channel data_) due commands b f =
      (repaired due commands b, deliver o casts reading channel data_ f)
