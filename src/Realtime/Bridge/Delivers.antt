-- ===== src/Realtime/Bridge/Delivers.antt =====
-- What a message does to a replica.
use geotrack.Prelude.{◌≡◌, refl, List}
use geotrack.Prelude.Text.{String-discrete}
use geotrack.Float.{Floats}
use geotrack.Messaging.Json.{Orjson, ReadsBack}
use geotrack.Messaging.Codec.{Casts, encode_positions}
use geotrack.Messaging.Codec.RoundTrip.{KeepsTyped, AllWritable, decode_positions-encode_positions}
use geotrack.Realtime.Hub.{PositionItem, apply}
use geotrack.Realtime.Bridge.{Fanout, Reading, positions_channel, dispatch, deliver}

-- What a processor publishes on the positions channel is applied to the hub, in its order, by every
-- replica that is given the message, and nothing else changes there, if orjson reads back what it
-- writes, the casts keep what has its type, the coordinates are finite, and the times in 64 bits.
pub deliver-encode_positions :
    {fl : Floats} (o : Orjson fl) (casts : Casts fl) (reading : Reading)
    (items : List (PositionItem fl)) (f : Fanout fl)
    → ReadsBack o
    → KeepsTyped casts
    → AllWritable items
    → deliver o casts reading positions_channel (encode_positions o items) f
      ≡ record f { hub = apply fl items f.hub }
unfolding deliver dispatch String-discrete
deliver-encode_positions o casts reading items f back keeps finite =
    rw (decode_positions-encode_positions o casts items back keeps finite, deliver, dispatch) refl
