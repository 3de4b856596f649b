-- ===== src/Tests/Gateway.antt =====
-- A gateway on concrete inputs.
use Prim.Native.String.{String}
use geotrack.Prelude.{
  ◌≡◌, refl, true, false, List, [], ◌∷◌, none, some, map, All, ◌≤◌, select, length, In, arith,
}
use geotrack.Prelude.Int.{pos}
use geotrack.Prelude.Text.{String-discrete}
use geotrack.Prelude.Dict.{get, put}
use geotrack.Prelude.Index.{add, add_at, pop_at}
use geotrack.Realtime.Grid.{cell_of}
use geotrack.Messaging.Codec.{encode_positions}
use geotrack.Processor.Tables.{Alert, AlertKind}
use geotrack.Processor.Batch.{BatchResult}
use geotrack.Processor.Publisher.{flushes, publish}
use geotrack.Processor.Publisher.Chunks.{IsChunk, publish-messages}
use geotrack.Realtime.Hub.{Hub, TickDelta, init, apply, drain, nothing_pending}
use geotrack.Realtime.Protocol.{Wire}
use geotrack.Realtime.Connection.{Connection, open_connection, offer_positions}
use geotrack.Realtime.Registry.{new_registry}
use geotrack.Realtime.Registry.Settled.{Sound}
use geotrack.Realtime.Registry.Life.{
  Event, admits, withdraws, locks, hook_done, after_events, new_registry-Sound,
}
use geotrack.Realtime.Bridge.{
  Bridge, Commands, Fanout, Reading, positions_channel, deliver, apply_subscriptions,
}
use geotrack.Realtime.Bridge.Converges.{is_in, Kept, apply_subscriptions-converges}
use geotrack.Realtime.Bridge.Delivers.{deliver-encode_positions}
use geotrack.Realtime.Gateway.{fan_out, Receiver, Replies}
use geotrack.Realtime.Gateway.FanOut.{fan_out-reference}
use geotrack.Realtime.Admission.{SessionInfo, older, session_joined}
use geotrack.Realtime.Admission.Cap.{DistinctIds, session_joined-cap}
use geotrack.Tests.Realtime.{integers}
use geotrack.Tests.Postfix.{postfix, postfix-ReadsBack}
use geotrack.Tests.Ingest.{casts, casts-KeepsTyped, parked}

abbrev sessions : List Event
sessions =
    admits 1 "ann"
    ∷ locks "ann"
    ∷ withdraws 1 "ann"
    ∷ hook_done "ann"
    ∷ hook_done "ann"
    ∷ locks "ann"
    ∷ []

new_registry-Sound_example : Sound 2 (after_events 2 sessions new_registry)
new_registry-Sound_example = new_registry-Sound 2 sessions

abbrev lost : Commands
lost = record { unsubscribes = true; subscribes = false }

abbrev bridge : Bridge
bridge = record {
  wanted = "geo:ch:user:ann" ∷ "geo:ch:positions" ∷ [];
  held = "geo:ch:positions" ∷ "geo:ch:user:bob" ∷ [];
}

apply_subscriptions-converges_example :
    let (done, b') = apply_subscriptions lost bridge in
    ((c : String) → Kept c bridge b')
    × (done ≡ true → (c : String) → is_in c b'.held ≡ is_in c bridge.wanted)
    × (lost ≡ record { unsubscribes = true; subscribes = true }
        → ((c : String) → is_in c b'.held ≡ is_in c bridge.wanted) × (done ≡ true))
apply_subscriptions-converges_example = apply_subscriptions-converges lost bridge

abbrev reading : Reading
reading = record { user_id_from_channel = λ channel. some channel; is_utf_8 = λ bytes. true }

abbrev fanout : Fanout integers
fanout = record { hub = init integers (pos 1) 60; frames = []; dropped = 0 }

deliver-encode_positions_example :
    deliver postfix casts reading positions_channel (encode_positions postfix (parked ∷ [])) fanout
    ≡ record fanout { hub = apply integers (parked ∷ []) fanout.hub }
deliver-encode_positions_example =
    deliver-encode_positions postfix casts reading (parked ∷ []) fanout postfix-ReadsBack
      casts-KeepsTyped ((refl, refl, (omega arith, omega arith)), tt)

abbrev wire : Wire integers
wire = record { encode = λ item. 65 ∷ []; dumps_ids = λ ids. 66 ∷ []; decimal = λ t. 67 ∷ [] }

abbrev replies : Replies
replies = record { error_frame = λ violation. 1 ∷ []; pong_frame = λ t now. 2 ∷ [] }

abbrev receiver : Receiver integers
receiver = record {
  connection = open_connection (pos 1) 8;
  violations = 1_000_000_000 ∷ 50_000_000_000 ∷ [];
}

abbrev alert : Alert integers
alert = record {
  id = 1;
  user_id = "ann";
  zone_id = "zone";
  zone_name = "depot";
  device_id = "truck";
  kind = AlertKind.enter;
  lat = pos 10;
  lon = pos 20;
  occurred_at = pos 1_000;
  created_at = pos 1_100;
}

abbrev result : BatchResult integers
result = record { accepted = parked ∷ []; alerts = alert ∷ []; stale = 0; rejected = [] }

publish-messages_example :
    All IsChunk (flushes (λ a. some (3 ∷ [])) postfix result)
    × (publish (λ a. some (3 ∷ [])) (λ chunk. none) postfix result
        ≡ ("geo:ch:positions", encode_positions postfix (parked ∷ []))
          ∷ ("geo:ch:user:ann", 3 ∷ [])
          ∷ [])
publish-messages_example =
    publish-messages (λ a. some (3 ∷ [])) (λ chunk. none) postfix result (λ chunk. refl)

abbrev hub : Hub integers
hub = apply integers (parked ∷ []) (init integers (pos 1) 60)

abbrev delta : TickDelta
delta = record { t_ms = pos 7; chunks = ((pos 20, pos 10), 65 ∷ []) ∷ []; departures = [] }

drained :
    drain integers wire.encode (pos 7) hub ≡ some (delta, record hub { pending = nothing_pending })
unfolding drain apply get init add_at put add String-discrete cell_of pop_at
drained = refl

abbrev clients : List (Connection integers)
clients =
    open_connection (pos 1) 8
    ∷ record (open_connection (pos 1) 8) {
      viewport =
          some (record { min_x = pos 20; min_y = pos 10; max_x = pos 20; max_y = pos 10 } ∷ []);
    }
    ∷ []

fan_out-reference_example :
    fan_out wire hub clients (pos 7)
    ≡ some (record hub { pending = nothing_pending }, map (offer_positions wire delta) clients)
fan_out-reference_example =
    fan_out-reference wire hub (record hub { pending = nothing_pending }) clients (pos 7) delta
      drained

-- three sessions, two of which connect at once
abbrev three : List SessionInfo
three =
    record { id = 7; label = "laptop"; connected_at = pos 20 }
    ∷ record { id = 9; label = "phone"; connected_at = pos 10 }
    ∷ record { id = 8; label = "tablet"; connected_at = pos 20 }
    ∷ []

three-DistinctIds : DistinctIds three
three-DistinctIds = (
  ((λ p. absurd (ground (arith, p))), ((λ p. absurd (ground (arith, p))), tt)),
  (((λ p. absurd (ground (arith, p))), tt), (tt, tt)),
)

session_joined-cap_example :
    (length (select (λ s. session_joined 2 s.id (some three)) three) ≤ 2)
    × ((a b : SessionInfo)
        → In a three
        → In b three
        → older a b ≡ true
        → session_joined 2 b.id (some three) ≡ true
        → session_joined 2 a.id (some three) ≡ true)
session_joined-cap_example = session_joined-cap 2 three three-DistinctIds
