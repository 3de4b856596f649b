-- ===== src/Generator/Socket/Delivered.antt =====
-- Sending a tick's reports: the frames, and what the counters say of them.
use geotrack.Prelude.{
  total, concat, length-concat, ℕ, zero, suc, ◌+◌, ◌-◌, ◌<◌, ◌≤◌, ◌≡◌, refl, Bool, List, [], ◌∷◌,
  ◌++◌, length, take, drop, length-take-le, length-drop, take-append-drop,
  length-take-add-length-drop, arith, ap, ◌∙◌, Bool-cases, inl, inr, All,
}
use geotrack.Float.{Floats}
use geotrack.Generator.{Random}
use geotrack.Generator.Fleet.{Report}
use geotrack.Generator.Stats.{Stats}
use geotrack.Generator.Socket.{
  pending_acks_max, chunks_of, chunked, Worker, remember, send_chunks, send,
}
use geotrack.Generator.Socket.Pending.{outstanding, remember_bounds}

chunks_of_lem :
    {A : Type 0} (n size : ℕ) (xs : List A)
    → 0 < size
    → length xs ≤ n
    → (concat (chunks_of n size xs) ≡ xs)
      × All (λ (c : List A). (0 < length c) × (length c ≤ size)) (chunks_of n size xs)
unfolding chunks_of
chunks_of_lem zero size [] h k = (refl, tt)
chunks_of_lem zero size (x ∷ xs) h k = absurd (omega arith)
chunks_of_lem (suc n) size [] h k = (refl, tt)
chunks_of_lem (suc n) size (x ∷ xs) h k =
    let ys = x ∷ xs in
    let shorter = length-drop size ys in
    let ih = chunks_of_lem n size (drop size ys) h (omega arith) in
    (
      ap (λ t. take size ys ++ t) ih.0 ∙ take-append-drop size ys,
      ((omega (arith, length-take-add-length-drop size ys), length-take-le size ys), ih.1),
    )

-- The frames of a tick hold its reports in their order, and none is empty or over the limit.
pub chunked_lem :
    {A : Type 0} (xs : List A) (size : ℕ)
    → 0 < size
    → (concat (chunked xs size) ≡ xs)
      × All (λ (c : List A). (0 < length c) × (length c ≤ size)) (chunked xs size)
unfolding chunked
chunked_lem xs size h = chunks_of_lem (length xs) size xs h (omega arith)

module _ {fl : Floats} {rnd : Random fl} where
  -- `u` reports were sent or dropped, and no more than these are waited for.
  pub record Sends (u : ℕ) (w w' : Worker fl rnd) : Type 0 where
    pub balance : w'.stats.sent + w'.stats.dropped ≡ w.stats.sent + w.stats.dropped + u
    pub outstanding_le : outstanding fl rnd w' ≤ outstanding fl rnd w + u
    pub bounded : length w'.pending ≤ pending_acks_max
    pub devices : w'.devices ≡ w.devices
    pub produced : w'.stats.produced ≡ w.stats.produced
    pub rejected : w'.stats.rejected ≡ w.stats.rejected

module _ (fl : Floats) (rnd : Random fl) where
  send_chunks-Sends :
      (ends : ℕ → fl.F × Bool) (chunks : List (List (Report fl))) (u : ℕ) (w : Worker fl rnd)
      → total length chunks ≡ u
      → length w.pending ≤ pending_acks_max
      → Sends u w (send_chunks fl rnd ends chunks u w).1
  unfolding send_chunks
  send_chunks-Sends ends [] u w e h = ground arith
  send_chunks-Sends ends (chunk ∷ chunks) u w e h =
      let seq = w.seq + 1 in
      let w0 = record w { seq = seq } in
      let b = remember_bounds fl rnd seq (ends seq).0 (length chunk) w0 h in
      let w1 = remember fl rnd seq (ends seq).0 (length chunk) w0 in
      let stats : w1.stats ≡ w.stats = unfold remember in refl in
      let devices : w1.devices ≡ w.devices = unfold remember in refl in
      let went = record w1 { stats = record w1.stats { sent = w1.stats.sent + length chunk } } in
      elim (Bool-cases (ends seq).1) [
        | inl gone ↦
            let ih = send_chunks-Sends ends chunks (u - length chunk) went (omega arith) b.0 in
            rw gone record {
              balance = omega (
                arith,
                ih.balance,
                ap (λ (x : Stats fl rnd). x.sent) stats,
                ap (λ (x : Stats fl rnd). x.dropped) stats,
              );
              outstanding_le = omega (arith, ih.outstanding_le, b.1);
              bounded = ih.bounded;
              devices = ih.devices ∙ devices;
              produced = ih.produced ∙ ap (λ (x : Stats fl rnd). x.produced) stats;
              rejected = ih.rejected ∙ ap (λ (x : Stats fl rnd). x.rejected) stats;
            }
        | inr stopped ↦ rw stopped record {
          balance = omega (
            arith,
            ap (λ (x : Stats fl rnd). x.sent) stats,
            ap (λ (x : Stats fl rnd). x.dropped) stats,
          );
          outstanding_le = omega (arith, b.1);
          bounded = b.0;
          devices = devices;
          produced = ap (λ (x : Stats fl rnd). x.produced) stats;
          rejected = ap (λ (x : Stats fl rnd). x.rejected) stats;
        }
      ]

  pub send-Sends :
      (max_batch : ℕ) (ends : ℕ → fl.F × Bool) (reports : List (Report fl)) (w : Worker fl rnd)
      → 0 < max_batch
      → length w.pending ≤ pending_acks_max
      → Sends (length reports) w (send fl rnd max_batch ends reports w).1
  unfolding send
  send-Sends max_batch ends reports w h k =
      let chunks = chunked reports max_batch in
      let all = (chunked_lem reports max_batch h).0 in
      send_chunks-Sends ends chunks (length reports) w
        (omega (arith, length-concat chunks, ap length all)) k
