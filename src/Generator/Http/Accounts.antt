-- ===== src/Generator/Http/Accounts.antt =====
-- What the counters of a run say of its reports: the queue and the senders.
use geotrack.Prelude.{
  total, total-append, ℕ, zero, suc, ◌+◌, ◌<◌, ◌≤◌, ◌≡◌, List, [], ◌∷◌, length, length-append,
  get_elem?, some, arith, ◌∙◌,
}
use geotrack.Float.{Floats}
use geotrack.Generator.{Random}
use geotrack.Generator.Fleet.{Report, update_at}
use geotrack.Generator.Http.{
  Sender, idle, requesting, sleeping, Runner, put_nowait, shed_oldest, count_queue, offer,
  offer_all,
}

pub total-update_at :
    {A : Type 0} (w : A → ℕ) (k : ℕ) (x y : A) (xs : List A)
    → get_elem? xs k ≡ some x
    → total w (update_at k (λ _. y) xs) + w x ≡ total w xs + w y
unfolding update_at
total-update_at w k x y [] h = cc
total-update_at w zero x y (z ∷ xs) h = ground arith
total-update_at w (suc k) x y (z ∷ xs) h = omega (arith, total-update_at w k x y xs h)

-- the reports that a sender has
abbrev pub held : {fl : Floats} → Sender fl → ℕ
held idle = 0
held (requesting batch left delay) = length batch
held (sleeping batch left delay pause) = length batch

-- whether its request is open, as a number
abbrev pub open_request : {fl : Floats} → Sender fl → ℕ
open_request (requesting batch left delay) = 1
open_request _ = 0

module _ {fl : Floats} {rnd : Random fl} where
  -- the reports that are neither sent nor dropped
  abbrev pub waiting : Runner fl rnd → ℕ
  waiting r = length r.batcher.reports + total length r.queue + total held r.senders

  -- The queue is within its limit and counted.
  pub record IsQueue (r : Runner fl rnd) : Type 0 where
    pub room : 0 < r.maxsize
    pub within : length r.queue ≤ r.maxsize
    pub counted : r.stats.queued ≡ length r.queue

  -- `r'` has taken up `n` reports into its queue, or dropped older ones for them.
  pub record Takes (n : ℕ) (r r' : Runner fl rnd) : Type 0 where
    pub balance :
        r'.stats.dropped + total length r'.queue ≡ r.stats.dropped + total length r.queue + n
    pub is_queue : IsQueue r'
    pub devices : r'.devices ≡ r.devices
    pub batcher : r'.batcher ≡ r.batcher
    pub senders : r'.senders ≡ r.senders
    pub produced : r'.stats.produced ≡ r.stats.produced
    pub sent : r'.stats.sent ≡ r.stats.sent
    pub rejected : r'.stats.rejected ≡ r.stats.rejected
    pub in_flight : r'.stats.in_flight ≡ r.stats.in_flight
    pub maxsize : r'.maxsize ≡ r.maxsize

module _ (fl : Floats) (rnd : Random fl) where
  offer_at-Takes :
      (batch : List (Report fl)) (queue : List (List (Report fl))) (r : Runner fl rnd)
      → IsQueue (record r { queue = queue })
      → Takes
          (length batch)
          (record r { queue = queue })
          (offer fl rnd batch (record r { queue = queue }))
  unfolding offer put_nowait shed_oldest count_queue
  offer_at-Takes batch [] r q = ground arith
  offer_at-Takes batch (oldest ∷ rest) r q = ground (
    arith,
    total-append length rest (batch ∷ []),
    length-append rest (batch ∷ []),
    total-append length (oldest ∷ rest) (batch ∷ []),
  )

  offer-Takes :
      (batch : List (Report fl)) (r : Runner fl rnd)
      → IsQueue r
      → Takes (length batch) r (offer fl rnd batch r)
  offer-Takes batch r q = offer_at-Takes batch r.queue r q

  pub offer_all-Takes :
      (batches : List (List (Report fl))) (r : Runner fl rnd)
      → IsQueue r
      → Takes (total length batches) r (offer_all fl rnd batches r)
  unfolding offer_all
  offer_all-Takes [] r q = ground arith
  offer_all-Takes (batch ∷ batches) r q =
      let one = offer-Takes batch r q in
      let r' = offer fl rnd batch r in
      let rest = offer_all-Takes batches r' one.is_queue in
      record {
        balance = omega arith;
        is_queue = rest.is_queue;
        devices = rest.devices ∙ one.devices;
        batcher = rest.batcher ∙ one.batcher;
        senders = rest.senders ∙ one.senders;
        produced = rest.produced ∙ one.produced;
        sent = rest.sent ∙ one.sent;
        rejected = rest.rejected ∙ one.rejected;
        in_flight = rest.in_flight ∙ one.in_flight;
        maxsize = rest.maxsize ∙ one.maxsize;
      }
