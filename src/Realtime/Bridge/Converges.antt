-- ===== src/Realtime/Bridge/Converges.antt =====
-- What Redis holds follows what the replica wants.
use Prim.Native.String.{String}
use geotrack.Prelude.{
  ◌≡◌, refl, ap, sym, ◌∙◌, Bool, true, false, not, ◌&&◌, List, [], ◌∷◌, ◌++◌, if◌then◌else◌, select,
  Bool-cases, inl, inr, arith,
}
use geotrack.Prelude.Index.{member}
use geotrack.Prelude.Text.{String-discrete}
use geotrack.Realtime.Bridge.{
  Bridge, Commands, minus, is_empty, in_sync, subscribe_missing, send_commands, apply_subscriptions,
}

abbrev pub is_in : String → List String → Bool
is_in c channels = member String-discrete c channels

is_in-select :
    (keep : String → Bool) (c : String) (xs : List String)
    → is_in c (select keep xs) ≡ (is_in c xs && keep c)
unfolding member
is_in-select keep c [] = refl
is_in-select keep c (x ∷ xs) = elim (String-discrete x c) [
  | yes p ↦
      let same : keep x ≡ keep c = ap keep p in
      let rest = is_in-select keep c xs in ground (arith, p, same, rest)
  | no p ↦ let rest = is_in-select keep c xs in ground (arith, p, rest)
]

is_in-append :
    (c : String) (xs ys : List String)
    → is_in c (xs ++ ys) ≡ (if is_in c xs then true else is_in c ys)
unfolding member
is_in-append c [] ys = refl
is_in-append c (x ∷ xs) ys = ground (arith, is_in-append c xs ys)

is_in-minus :
    (c : String) (xs ys : List String) → is_in c (minus xs ys) ≡ (is_in c xs && not (is_in c ys))
unfolding minus
is_in-minus c xs ys = is_in-select (λ x. not (is_in x ys)) c xs

is_in-is_empty : (c : String) (xs : List String) → is_empty xs ≡ true → is_in c xs ≡ false
unfolding is_empty member
is_in-is_empty c [] h = refl
is_in-is_empty c (x ∷ xs) h = cc

is_empty-minus :
    (xs ys : List String)
    → is_empty (minus xs ys) ≡ true
    → (c : String) → is_in c xs ≡ true
    → is_in c ys ≡ true
is_empty-minus xs ys h c m =
    let nothing = is_in-is_empty c (minus xs ys) h in
    let known = is_in-minus c xs ys in ground (arith, nothing, known, m)

-- `in_sync` is the equality of the two sets.
in_sync-same : (b : Bridge) → in_sync b ≡ true → (c : String) → is_in c b.held ≡ is_in c b.wanted
unfolding in_sync
in_sync-same b h c =
    let none_stale : is_empty (minus b.held b.wanted) ≡ true = ground (arith, h) in
    let none_missing : is_empty (minus b.wanted b.held) ≡ true = ground (arith, h) in
    let there_too = is_empty-minus b.held b.wanted none_stale c in
    let here_too = is_empty-minus b.wanted b.held none_missing c in
    ground (arith, there_too, here_too)

-- What Redis may hold after the commands, for one channel.
abbrev pub Kept : String → Bridge → Bridge → Type 0
Kept c b b' =
    (b'.wanted ≡ b.wanted)
    × (is_in c b.held ≡ true → is_in c b.wanted ≡ true → is_in c b'.held ≡ true)
    × (is_in c b'.held ≡ true → is_in c b.held ≡ false → is_in c b.wanted ≡ true)

module _ (c : String) (b : Bridge) where
  abbrev stale : List String
  stale = minus b.held b.wanted

  abbrev missing : List String
  missing = minus b.wanted b.held

  -- what is left once the stale channels are gone
  abbrev trimmed : Bridge
  trimmed = record b { held = minus b.held stale }

  is_in-trimmed : is_in c trimmed.held ≡ (is_in c b.held && is_in c b.wanted)
  is_in-trimmed =
      let outer = is_in-minus c b.held stale in
      let inner = is_in-minus c b.held b.wanted in ground (arith, outer, inner)

  subscribe_missing-Kept :
      (answered : Bool) (h : List String)
      → (is_in c b.held ≡ true → is_in c b.wanted ≡ true → is_in c h ≡ true)
      → (is_in c h ≡ true → is_in c b.held ≡ true)
      → Kept c b (subscribe_missing answered missing (record b { held = h }))
  unfolding subscribe_missing
  subscribe_missing-Kept answered h kept old =
      let more = is_in-append c h missing in
      let wants = is_in-minus c b.wanted b.held in
      elim (Bool-cases (is_empty missing)) [
        | inl e ↦ rw e (refl, kept, (λ m n. absurd (ground (arith, old m, n))))
        | inr e ↦ elim (Bool-cases answered) [
          | inl a ↦
              rw (e, a)
                (
                  refl,
                  (λ m n. let k = kept m n in ground (arith, more, k)),
                  (λ m n. elim (Bool-cases (is_in c h)) [
                    | inl i ↦ absurd (let o = old i in ground (arith, o, n))
                    | inr i ↦ ground (arith, more, wants, m, i)
                  ]),
                )
          | inr a ↦ rw (e, a) (refl, kept, (λ m n. absurd (ground (arith, old m, n))))
        ]
      ]

  send_commands-Kept : (commands : Commands) → Kept c b (send_commands commands stale missing b)
  unfolding send_commands
  send_commands-Kept commands = elim (Bool-cases (is_empty stale)) [
    | inl e ↦ rw e (subscribe_missing-Kept commands.subscribes b.held (λ m n. m) (λ m. m))
    | inr e ↦ elim (Bool-cases commands.unsubscribes) [
      | inl a ↦
          rw (e, a)
            (subscribe_missing-Kept commands.subscribes trimmed.held
              (λ m n. let t = is_in-trimmed in ground (arith, t, m, n))
              (λ m. let t = is_in-trimmed in ground (arith, t, m)))
      | inr a ↦ rw (e, a) (refl, (λ m n. m), (λ m n. absurd (ground (arith, m, n))))
    ]
  ]

  subscribe_missing-all :
      (h : List String)
      → is_in c h ≡ (is_in c b.held && is_in c b.wanted)
      → is_in c (subscribe_missing true missing (record b { held = h })).held ≡ is_in c b.wanted
  unfolding subscribe_missing
  subscribe_missing-all h same =
      let more = is_in-append c h missing in
      let wants = is_in-minus c b.wanted b.held in
      elim (Bool-cases (is_empty missing)) [
        | inl e ↦
            let nothing = is_in-is_empty c missing e in rw e (ground (arith, same, wants, nothing))
        | inr e ↦ rw e (ground (arith, same, more, wants))
      ]

  send_commands-all :
      is_in c
        (send_commands (record { unsubscribes = true; subscribes = true }) stale missing b).held
      ≡ is_in c b.wanted
  unfolding send_commands
  send_commands-all = elim (Bool-cases (is_empty stale)) [
    | inl e ↦
        let nothing = is_in-is_empty c stale e in
        let gone = is_in-minus c b.held b.wanted in
        rw e (subscribe_missing-all b.held (ground (arith, nothing, gone)))
    | inr e ↦ rw e (subscribe_missing-all trimmed.held is_in-trimmed)
  ]

is_empty-none : (xs : List String) → ((c : String) → is_in c xs ≡ false) → is_empty xs ≡ true
unfolding is_empty member
is_empty-none [] h = refl
is_empty-none (x ∷ xs) h = let absent = h x in ground (arith, absent)

same-in_sync : (b : Bridge) → ((c : String) → is_in c b.held ≡ is_in c b.wanted) → in_sync b ≡ true
unfolding in_sync
same-in_sync b same =
    rw
      (
        is_empty-none (minus b.held b.wanted)
            (λ c. let m = is_in-minus c b.held b.wanted in let s = same c in ground (arith, m, s)),
        is_empty-none (minus b.wanted b.held)
            (λ c. let m = is_in-minus c b.wanted b.held in let s = same c in ground (arith, m, s)),
      )
      refl

send_commands-wanted :
    (commands : Commands) (b : Bridge) (gone new : List String)
    → (send_commands commands gone new b).wanted ≡ b.wanted
unfolding send_commands subscribe_missing
send_commands-wanted commands b gone new = ground arith

-- However Redis answers the two commands, a channel that is held and wanted stays held, and no
-- channel comes to be held that is not wanted; the answer is `true` only if the channels held are
-- those that are wanted; and if Redis answers both commands, the channels held are those that are
-- wanted, and the answer is `true`.
pub apply_subscriptions-converges :
    (commands : Commands) (b : Bridge)
    → let (done, b') = apply_subscriptions commands b in
      ((c : String) → Kept c b b')
      × (done ≡ true → (c : String) → is_in c b'.held ≡ is_in c b.wanted)
      × (commands ≡ record { unsubscribes = true; subscribes = true }
          → ((c : String) → is_in c b'.held ≡ is_in c b.wanted) × (done ≡ true))
unfolding apply_subscriptions
apply_subscriptions-converges commands b = (
  (λ c. send_commands-Kept c b commands),
  (λ done c.
      in_sync-same (send_commands commands (minus b.held b.wanted) (minus b.wanted b.held) b) done c
      ∙ ap (is_in c)
          (send_commands-wanted commands b (minus b.held b.wanted) (minus b.wanted b.held))),
  (λ both. rw both (
    (λ c. send_commands-all c b),
    same-in_sync _ (λ c.
        send_commands-all c b
        ∙ ap (is_in c) (
            sym (
              send_commands-wanted (record { unsubscribes = true; subscribes = true }) b
                (minus b.held b.wanted) (minus b.wanted b.held)))),
  )),
)
