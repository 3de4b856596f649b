-- ===== src/Generator/Http.antt =====
-- generator.py: `HttpRunner`, as what its tasks do between two awaits: the producer's rounds,
-- and for each sender that it takes a batch, that its request is answered, and that its pause is
-- over. `asyncio.Queue` is a list with its limit; httpx is what a request ends with.
pub mod Accounts
pub mod Balance
pub mod Run
use Prim.Native.String.{String}
use geotrack.Prelude.{
  ℕ, zero, suc, ◌+◌, ◌-◌, ◌*◌, Bool, true, false, ◌&&◌, ◌||◌, List, [], ◌∷◌, ◌++◌, length,
  get_elem?, Option, none, some, if◌then◌else◌, ltb, leb, ◌==◌,
}
use geotrack.Prelude.Int.{ℤ, pos, ◌+ℤ◌}
use geotrack.Prelude.Text.{Bytes}
use geotrack.Float.{Floats}
use geotrack.Messaging.Json.{Json, obj, Fields, Orjson, get_field, as_int}
use geotrack.Generator.{Random, Math}
use geotrack.Generator.Fleet.{Devices, Report, update_at, pop_due, produce_all}
use geotrack.Generator.Batcher.{Batcher, new_batcher, add_report, drain}
use geotrack.Generator.Stats.{
  Stats, sample, reconnect_base_s, backed_off, retry_pause, Reads, RetryAfter, unsaid, seconds,
  overflow, parse_retry_after,
}

abbrev pub http_attempts : ℕ
http_attempts = 3

abbrev pub queue_depth_factor : ℕ
queue_depth_factor = 4

-- What `client.post` ends with: an `httpx.HTTPError`, or a response.
pub data Outcome (fl : Floats) : Type 0 where
  failed : Outcome fl
  -- `time.monotonic() - started` in milliseconds, the status, the `Retry-After` header, the content
  response : fl.F → ℕ → Option String → Bytes → Outcome fl

-- A sender, with the batch it posts, the attempts it has left after this one, and its next delay.
pub data Sender (fl : Floats) : Type 0 where
  idle : Sender fl
  requesting : List (Report fl) → ℕ → fl.F → Sender fl
  -- and for how long it sleeps
  sleeping : List (Report fl) → ℕ → fl.F → fl.F → Sender fl

pub record Runner (fl : Floats) (rnd : Random fl) : Type 0 where
  pub devices : Devices fl rnd
  pub batcher : Batcher fl (Report fl)
  pub queue : List (List (Report fl))
  pub maxsize : ℕ
  pub senders : List (Sender fl)
  pub stats : Stats fl rnd

-- the senders that `run` starts
abbrev pub all_idle : {fl : Floats} → ℕ → List (Sender fl)
all_idle zero = []
all_idle (suc n) = idle ∷ all_idle n

module _ {fl : Floats} (o : Orjson fl) where
  abbrev pub count_or : ℕ → Option ℤ → ℤ
  count_or fallback none = pos fallback
  count_or fallback (some n) = n

  abbrev pub count_field : ℕ → Option (Json fl) → ℤ
  count_field fallback none = pos fallback
  count_field fallback (some j) = count_or fallback (as_int j)

  abbrev pub count_body : ℕ → Option (Json fl) → ℤ
  count_body fallback (some (obj fields)) = count_field fallback (get_field "accepted" fields)
  count_body fallback _ = pos fallback

  unfoldable pub accepted_count : Bytes → ℕ → ℤ
  accepted_count content fallback = count_body fallback (o.loads content)

module _ (fl : Floats) (rnd : Random fl) where
  open fl use {F}

  -- `HttpRunner.__init__`, with the batcher of `_produce` and the senders of `run`
  unfoldable pub new_runner : Devices fl rnd → ℕ → ℕ → F → Stats fl rnd → Runner fl rnd
  unfolding new_batcher
  new_runner devices connections batch_size window stats = record {
    devices = devices;
    batcher = new_batcher fl batch_size window;
    queue = [];
    maxsize = connections * queue_depth_factor;
    senders = all_idle connections;
    stats = stats;
  }

  -- `_offer`; the queue is full if it has a limit and has reached it
  abbrev pub full : ℕ → ℕ → Bool
  full maxsize n = ltb 0 maxsize && leb maxsize n

  unfoldable pub put_nowait : List (Report fl) → Runner fl rnd → Runner fl rnd
  put_nowait batch r =
      if full r.maxsize (length r.queue) then r else record r { queue = r.queue ++ (batch ∷ []) }

  unfoldable pub shed_oldest : List (List (Report fl)) → Runner fl rnd → Runner fl rnd
  shed_oldest [] r = r
  shed_oldest (oldest ∷ rest) r = record r {
    queue = rest;
    stats = record r.stats { dropped = r.stats.dropped + length oldest };
  }

  -- `self._stats.queued = self._queue.qsize()`
  unfoldable pub count_queue : Runner fl rnd → Runner fl rnd
  count_queue r = record r { stats = record r.stats { queued = length r.queue } }

  unfoldable pub offer : List (Report fl) → Runner fl rnd → Runner fl rnd
  unfolding put_nowait shed_oldest count_queue
  offer batch r =
      count_queue
        (put_nowait batch (if full r.maxsize (length r.queue) then shed_oldest r.queue r else r))

  unfoldable pub offer_all : List (List (Report fl)) → Runner fl rnd → Runner fl rnd
  offer_all [] r = r
  offer_all (batch ∷ batches) r = offer_all batches (offer batch r)

  unfoldable pub add_all : List (Report fl) → F → Batcher fl (Report fl) → Batcher fl (Report fl)
  unfolding add_report
  add_all [] now b = b
  add_all (report ∷ reports) now b = add_all reports now (add_report fl report now b)

  -- A round of `_produce`, and `none` where its inner loop does not end.
  unfoldable pub produce : Math fl → (F → F) → F → ℕ → Runner fl rnd → Option (Runner fl rnd)
  unfolding add_all offer_all drain
  produce mt round7 now moment r =
      let (due, rest) = pop_due fl now r.devices.schedule in
      let (reports, d) =
        produce_all fl rnd mt round7 now moment due (record r.devices { schedule = rest }) in
      let b = add_all reports now r.batcher in
      elim (drain fl (suc (length b.reports)) now b) [
        | none ↦ none
        | some (batches, b') ↦ some (
            offer_all batches (record r {
              devices = d;
              batcher = b';
              stats = record r.stats { produced = r.stats.produced + length due };
            }))
      ]

  -- `_consume` takes a batch, and `_post` makes its first request.
  unfoldable pub take_from :
      ℕ → Option (Sender fl) → List (List (Report fl)) → Runner fl rnd → Runner fl rnd
  take_from k (some idle) (batch ∷ rest) r = record r {
    queue = rest;
    senders =
        update_at k (λ _. requesting batch (http_attempts - 1) (reconnect_base_s fl)) r.senders;
    stats = record r.stats { queued = length rest; in_flight = r.stats.in_flight + 1 };
  }
  take_from k _ _ r = r

  unfoldable pub take_next : ℕ → Runner fl rnd → Runner fl rnd
  unfolding take_from
  take_next k r = take_from k (get_elem? r.senders k) r.queue r

  -- The pause that a 429 or a 503 asks for; where `parse_retry_after` raises, the sender is
  -- restarted, without its batch.
  unfoldable pub throttled :
      RetryAfter fl → List (Report fl) → ℕ → F → Stats fl rnd → Sender fl × Stats fl rnd
  unfolding backed_off retry_pause
  throttled unsaid batch left delay s =
      (sleeping batch left (backed_off fl delay) (retry_pause fl none delay), s)
  throttled (seconds asked) batch left delay s =
      (sleeping batch left (backed_off fl delay) (retry_pause fl (some asked) delay), s)
  throttled overflow batch left delay s = (idle, record s { failures = s.failures + 1 })

  unfoldable pub accept : F → ℕ → ℤ → Stats fl rnd → Stats fl rnd
  unfolding sample
  accept elapsed n count s = record s {
    latency = sample fl rnd elapsed s.latency;
    sent = s.sent + n;
    accepted = s.accepted +ℤ count;
  }

  module _ (o : Orjson fl) (reads : Reads fl) where
    -- What `_post` does with the outcome of a request.
    unfoldable pub settle :
        Outcome fl → List (Report fl) → ℕ → F → Stats fl rnd → Sender fl × Stats fl rnd
    unfolding throttled accept accepted_count parse_retry_after backed_off
    settle failed batch left delay s =
        (sleeping batch left (backed_off fl delay) delay, record s { failures = s.failures + 1 })
    settle (response elapsed code retry_after content) batch left delay s =
        if ltb code 300
        then (idle, accept elapsed (length batch) (accepted_count o content (length batch)) s)
        else if code == 429 || code == 503
        then throttled (parse_retry_after fl reads retry_after) batch left delay
            (record s { throttles = s.throttles + 1 })
        else (idle, record s { sent = s.sent + length batch; rejected = s.rejected + length batch })

    unfoldable pub answer_to : ℕ → Outcome fl → Option (Sender fl) → Runner fl rnd → Runner fl rnd
    unfolding settle
    answer_to k outcome (some (requesting batch left delay)) r =
        let (sender, s) =
          settle outcome batch left delay (record r.stats { in_flight = r.stats.in_flight - 1 }) in
        record r { senders = update_at k (λ _. sender) r.senders; stats = s }
    answer_to k outcome _ r = r

    -- The request of a sender ends.
    unfoldable pub answer : ℕ → Outcome fl → Runner fl rnd → Runner fl rnd
    unfolding answer_to
    answer k outcome r = answer_to k outcome (get_elem? r.senders k) r

  unfoldable pub wake_from : ℕ → Option (Sender fl) → Runner fl rnd → Runner fl rnd
  wake_from k (some (sleeping batch zero delay pause)) r = record r {
    senders = update_at k (λ _. idle) r.senders;
    stats = record r.stats { dropped = r.stats.dropped + length batch };
  }
  wake_from k (some (sleeping batch (suc left) delay pause)) r = record r {
    senders = update_at k (λ _. requesting batch left delay) r.senders;
    stats = record r.stats { in_flight = r.stats.in_flight + 1 };
  }
  wake_from k _ r = r

  -- A sender has slept: it tries again, or has had its attempts.
  unfoldable pub wake : ℕ → Runner fl rnd → Runner fl rnd
  unfolding wake_from
  wake k r = wake_from k (get_elem? r.senders k) r

-- What a task does next.
pub data Event (fl : Floats) : Type 0 where
  produces : fl.F → ℕ → Event fl
  takes : ℕ → Event fl
  answered : ℕ → Outcome fl → Event fl
  wakes : ℕ → Event fl

module _ (fl : Floats) (rnd : Random fl) (mt : Math fl) (round7 : fl.F → fl.F) (o : Orjson fl)
    (reads : Reads fl) where
  unfoldable pub happen : Event fl → Runner fl rnd → Option (Runner fl rnd)
  happen (produces now moment) r = produce fl rnd mt round7 now moment r
  happen (takes k) r = some (take_next fl rnd k r)
  happen (answered k outcome) r = some (answer fl rnd o reads k outcome r)
  happen (wakes k) r = some (wake fl rnd k r)

  unfoldable pub happen_all : List (Event fl) → Runner fl rnd → Option (Runner fl rnd)
  happen_all [] r = some r
  happen_all (e ∷ es) r = elim (happen e r) [ none ↦ none | some r' ↦ happen_all es r' ]
