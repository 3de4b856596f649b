-- ===== src/Generator/Http/Balance.antt =====
-- What the counters of a run say of its reports: every event keeps the account.
use geotrack.Prelude.{
  total, ℕ, zero, suc, ◌+◌, ◌-◌, ◌<◌, ◌≤◌, ◌≡◌, refl, Bool, true, false, ◌&&◌, ◌||◌, List, [], ◌∷◌,
  length, length-append, get_elem?, Option, none, some, if◌then◌else◌, ltb, ◌==◌, arith, ap, subst,
  ◌∙◌, Bool-cases, inl, inr,
}
use geotrack.Float.{Floats}
use geotrack.Messaging.Json.{Orjson}
use geotrack.Generator.{Random}
use geotrack.Generator.Fleet.{Report}
use geotrack.Generator.Fleet.Deadlines.{IsArmed}
use geotrack.Generator.Batcher.{Batcher, add_report}
use geotrack.Generator.Stats.{
  Stats, reconnect_base_s, Reads, RetryAfter, unsaid, seconds, overflow, parse_retry_after,
}
use geotrack.Generator.Http.{
  Outcome, failed, response, Sender, idle, requesting, sleeping, Runner, add_all, take_from,
  throttled, accept, settle, answer_to, wake_from, Event, answered,
}
use geotrack.Generator.Http.Accounts.{total-update_at, held, open_request, waiting, IsQueue}

-- The account of a run: every report that was produced was sent or dropped, waits, or is one of
-- the `n` that were lost.
pub record IsSound {fl : Floats} {rnd : Random fl} (n : ℕ) (r : Runner fl rnd) : Type 0 where
  pub balance : r.stats.produced ≡ r.stats.sent + r.stats.dropped + waiting r + n
  pub is_queue : IsQueue r
  pub requests : r.stats.in_flight ≡ total open_request r.senders
  pub refused : r.stats.rejected ≤ r.stats.sent
  pub sized : 0 < r.batcher.size
  pub armed : IsArmed fl rnd r.devices

nothing : (n : ℕ) (b : Bool) → n ≡ n + (if b then 0 else 0)
nothing n b = ground arith

-- Whether reading the answer's `Retry-After` raises an `OverflowError`.
abbrev pub is_overflow : {fl : Floats} → RetryAfter fl → Bool
is_overflow overflow = true
is_overflow _ = false

-- the batch of an open request, by its length
abbrev pub asked_by : {fl : Floats} → Option (Sender fl) → ℕ
asked_by (some (requesting batch left delay)) = length batch
asked_by _ = 0

module _ (fl : Floats) (reads : Reads fl) where
  -- whether an answer makes `parse_retry_after` raise
  abbrev pub overflows : Outcome fl → Bool
  overflows failed = false
  overflows (response elapsed code retry_after content) =
      (code == 429 || code == 503) && is_overflow (parse_retry_after fl reads retry_after)

  -- the reports that an event loses
  abbrev pub lost_by : {rnd : Random fl} → Event fl → Runner fl rnd → ℕ
  lost_by (answered k outcome) r = if overflows outcome then asked_by (get_elem? r.senders k) else 0
  lost_by _ r = 0

module _ (fl : Floats) (rnd : Random fl) where
  pub add_all-length :
      (reports : List (Report fl)) (now : fl.F) (b : Batcher fl (Report fl))
      → (length (add_all fl rnd reports now b).reports ≡ length b.reports + length reports)
        × ((add_all fl rnd reports now b).size ≡ b.size)
  unfolding add_all add_report
  add_all-length [] now b = (omega arith, refl)
  add_all-length (report ∷ reports) now b =
      let b' = add_report fl report now b in
      let ih = add_all-length reports now b' in
      (omega (arith, ih.0, length-append b.reports (report ∷ [])), ih.1)

  -- A batch that was asked for is settled, or kept for another attempt, or lost.
  record Settles (n : ℕ) (lost : ℕ) (s : Stats fl rnd) (r : Sender fl × Stats fl rnd) : Type 0 where
    balance : r.1.sent + r.1.dropped + held r.0 + lost ≡ s.sent + s.dropped + n
    closed : open_request r.0 ≡ 0
    in_flight : r.1.in_flight ≡ s.in_flight
    produced : r.1.produced ≡ s.produced
    queued : r.1.queued ≡ s.queued
    refused : s.rejected ≤ s.sent → r.1.rejected ≤ r.1.sent

  throttled-Settles :
      (asked : RetryAfter fl) (batch : List (Report fl)) (left : ℕ) (delay : fl.F)
      (s : Stats fl rnd)
      → Settles
          (length batch)
          (if is_overflow asked then length batch else 0)
          s
          (throttled fl rnd asked batch left delay s)
  unfolding throttled
  throttled-Settles unsaid batch left delay s = ground arith
  throttled-Settles (seconds t) batch left delay s = ground arith
  throttled-Settles overflow batch left delay s = ground arith

  module _ (o : Orjson fl) (reads : Reads fl) where
    settle-Settles :
        (outcome : Outcome fl) (batch : List (Report fl)) (left : ℕ) (delay : fl.F)
        (s : Stats fl rnd)
        → Settles
            (length batch)
            (if overflows fl reads outcome then length batch else 0)
            s
            (settle fl rnd o reads outcome batch left delay s)
    unfolding settle accept
    settle-Settles failed batch left delay s = ground arith
    settle-Settles (response elapsed code retry_after content) batch left delay s =
        elim (Bool-cases (code == 429 || code == 503)) [
          | inl asks ↦
              let big : ltb code 300 ≡ false = ground arith in
              let said = parse_retry_after fl reads retry_after in
              let all =
                throttled-Settles said batch left delay
                  (record s { throttles = s.throttles + 1 }) in
              rw asks (
                rw big record {
                  balance = all.balance;
                  closed = all.closed;
                  in_flight = all.in_flight;
                  produced = all.produced;
                  queued = all.queued;
                  refused = all.refused;
                })
          | inr other ↦ rw other (ground arith)
        ]

    pub answer_to-IsSound :
        (n k : ℕ) (outcome : Outcome fl) (who : Option (Sender fl)) (r : Runner fl rnd)
        → get_elem? r.senders k ≡ who
        → IsSound n r
        → IsSound
            (n + (if overflows fl reads outcome then asked_by who else 0))
            (answer_to fl rnd o reads k outcome who r)
    unfolding answer_to
    answer_to-IsSound n k outcome none r e h =
        subst (λ m. IsSound m r) (nothing n (overflows fl reads outcome)) h
    answer_to-IsSound n k outcome (some idle) r e h =
        subst (λ m. IsSound m r) (nothing n (overflows fl reads outcome)) h
    answer_to-IsSound n k outcome (some (sleeping batch left delay pause)) r e h =
        subst (λ m. IsSound m r) (nothing n (overflows fl reads outcome)) h
    answer_to-IsSound n k outcome (some (requesting batch left delay)) r e h =
        let s = record r.stats { in_flight = r.stats.in_flight - 1 } in
        let settled = settle-Settles outcome batch left delay s in
        let sender = (settle fl rnd o reads outcome batch left delay s).0 in
        let who = requesting batch left delay in
        let reports = total-update_at held k who sender r.senders e in
        let requests = total-update_at open_request k who sender r.senders e in
        record {
          balance = omega (arith, h.balance, settled.balance, reports);
          is_queue = record {
            room = h.is_queue.room;
            within = h.is_queue.within;
            counted = settled.queued ∙ h.is_queue.counted;
          };
          requests = omega (arith, requests, h.requests, settled.in_flight, settled.closed);
          refused = settled.refused h.refused;
          sized = h.sized;
          armed = h.armed;
        }

  pub take_from-IsSound :
      (n k : ℕ) (who : Option (Sender fl)) (queue : List (List (Report fl))) (r : Runner fl rnd)
      → get_elem? r.senders k ≡ who
      → r.queue ≡ queue
      → IsSound n r
      → IsSound n (take_from fl rnd k who queue r)
  unfolding take_from
  take_from-IsSound n k none queue r e q h = h
  take_from-IsSound n k (some idle) [] r e q h = h
  take_from-IsSound n k (some (requesting batch left delay)) queue r e q h = h
  take_from-IsSound n k (some (sleeping batch left delay pause)) queue r e q h = h
  take_from-IsSound n k (some idle) (batch ∷ rest) r e q h =
      let sender = requesting batch 2 (reconnect_base_s fl) in
      let reports = total-update_at held k idle sender r.senders e in
      let requests = total-update_at open_request k idle sender r.senders e in
      let queued = ap (total length) q in
      let shorter = ap length q in
      record {
        balance = omega (arith, h.balance, reports, queued);
        is_queue = record {
          room = h.is_queue.room;
          within = omega (arith, h.is_queue.within, shorter);
          counted = refl;
        };
        requests = omega (arith, requests, h.requests);
        refused = h.refused;
        sized = h.sized;
        armed = h.armed;
      }

  same_queue :
      {r r' : Runner fl rnd}
      → IsQueue r
      → r'.maxsize ≡ r.maxsize
      → r'.queue ≡ r.queue
      → r'.stats.queued ≡ r.stats.queued
      → IsQueue r'
  same_queue q m l c = record {
    room = rw m q.room;
    within = rw (m, l) q.within;
    counted = rw (l, c) q.counted;
  }

  pub wake_from-IsSound :
      (n k : ℕ) (who : Option (Sender fl)) (r : Runner fl rnd)
      → get_elem? r.senders k ≡ who
      → IsSound n r
      → IsSound n (wake_from fl rnd k who r)
  unfolding wake_from
  wake_from-IsSound n k none r e h = h
  wake_from-IsSound n k (some idle) r e h = h
  wake_from-IsSound n k (some (requesting batch left delay)) r e h = h
  wake_from-IsSound n k (some (sleeping batch zero delay pause)) r e h =
      let who = sleeping batch zero delay pause in
      let reports = total-update_at held k who idle r.senders e in
      let requests = total-update_at open_request k who idle r.senders e in
      record {
        balance = omega (arith, h.balance, reports);
        is_queue = same_queue h.is_queue refl refl refl;
        requests = omega (arith, requests, h.requests);
        refused = h.refused;
        sized = h.sized;
        armed = h.armed;
      }
  wake_from-IsSound n k (some (sleeping batch (suc left) delay pause)) r e h =
      let who = sleeping batch (suc left) delay pause in
      let sender = requesting batch left delay in
      let reports = total-update_at held k who sender r.senders e in
      let requests = total-update_at open_request k who sender r.senders e in
      record {
        balance = omega (arith, h.balance, reports);
        is_queue = same_queue h.is_queue refl refl refl;
        requests = omega (arith, requests, h.requests);
        refused = h.refused;
        sized = h.sized;
        armed = h.armed;
      }
