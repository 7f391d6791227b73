-- ===== src/Cmd/Relay/Progress.antt =====
-- The goroutines of wsHandler of cmd/serve.go that copy the output never block one another for good.
use onfire.Prelude.{
  ℕ, zero, suc, ◌+◌, ◌<◌, ◌≡◌, refl, ap, sym, ◌∙◌, List, [], ◌∷◌, ◌++◌, Bool, true, false, Option,
  none, some, if◌then◌else◌, ltb, length, append_empty, subst, ◌⊎◌, Bool-cases, inl, inr, arith,
}
use onfire.Prelude.Text.{Text}
use onfire.Cmd.Relay.{
  Chunk, Stream, stdout, stderr, Phase, reading, locking, writing, unlocking, returned, Copier,
  Relay, next_round, after_read, on_read, in_phase, copy_step, relay_step, run_relay, start_relay,
  go_on, with_out, with_errs,
}
use onfire.Cmd.Relay.Order.{
  messages, Merge, pending_in, holds, owned, Then, from_then, run_relay-IsRelayed, IsRelayed,
}

-- The steps that a stream takes up to its end: Read, and for what was read Lock, WriteMessage and Unlock.
abbrev rounds_left : Bool → ℕ → ℕ
rounds_left true n = 0
rounds_left false n = n

unfoldable pub steps_of : List Chunk → ℕ
steps_of [] = 0
steps_of (c ∷ cs) =
    let rest = rounds_left c.failed (steps_of cs) in if ltb 0 c.count then rest + 4 else rest + 1

abbrev left_in : Phase → List Chunk → ℕ
left_in reading cs = steps_of cs
left_in (locking n failed) cs = rounds_left failed (steps_of cs) + 3
left_in (writing n failed) cs = rounds_left failed (steps_of cs) + 2
left_in (unlocking failed) cs = rounds_left failed (steps_of cs) + 1
left_in returned cs = 0

abbrev pub left : Copier → ℕ
left c = left_in c.phase c.input

abbrev Spends : ℕ → Copier × Option Stream × List Text → Type 0
Spends n (c, owner, sent) = n ≡ left c + 1

next_round-left :
    (failed : Bool) (cs : List Chunk)
    → left_in (next_round failed) cs ≡ rounds_left failed (steps_of cs)
next_round-left true cs = refl
next_round-left false cs = refl

after_read-left : (c : Chunk) (cs : List Chunk) → steps_of (c ∷ cs) ≡ left_in (after_read c) cs + 1
unfolding steps_of
after_read-left c cs = elim (Bool-cases (ltb 0 c.count)) [
  | inl t ↦ rw t (omega arith)
  | inr f ↦ rw f (omega (arith, next_round-left c.failed cs))
]

on_read-Spends :
    (cs : List Chunk) (owner : Option Stream) (sent : List Text)
    → Then (Spends (steps_of cs)) (on_read cs owner sent)
on_read-Spends [] owner sent = tt
on_read-Spends (c ∷ cs) owner sent = after_read-left c cs

in_phase-Spends :
    (s : Stream) (p : Phase) (c : Copier) (owner : Option Stream) (sent : List Text)
    → Then (Spends (left_in p c.input)) (in_phase s p c owner sent)
in_phase-Spends s reading c owner sent = on_read-Spends c.input owner sent
in_phase-Spends s (locking n failed) c (some t) sent = tt
in_phase-Spends s (locking n failed) c none sent = omega arith
in_phase-Spends s (writing n failed) c owner sent = omega arith
in_phase-Spends s (unlocking failed) c owner sent = omega (arith, next_round-left failed c.input)
in_phase-Spends s returned c owner sent = tt

abbrev to_go : Relay → ℕ
to_go r = left r.out + left r.errs

abbrev SpendsRelay : ℕ → Relay → Type 0
SpendsRelay n r = n ≡ to_go r + 1

spent_out :
    (r : Relay) (o : Option (Copier × Option Stream × List Text))
    → Then (Spends (left r.out)) o
    → Then (SpendsRelay (to_go r)) (with_out r o)
spent_out r none h = tt
spent_out r (some (c, owner, sent)) h = omega (arith, h)

spent_errs :
    (r : Relay) (o : Option (Copier × Option Stream × List Text))
    → Then (Spends (left r.errs)) o
    → Then (SpendsRelay (to_go r)) (with_errs r o)
spent_errs r none h = tt
spent_errs r (some (c, owner, sent)) h = omega (arith, h)

relay_step-Spends : (s : Stream) (r : Relay) → Then (SpendsRelay (to_go r)) (relay_step s r)
unfolding relay_step copy_step
relay_step-Spends stdout r = spent_out r _ (in_phase-Spends stdout r.out.phase r.out r.owner r.sent)
relay_step-Spends stderr r =
    spent_errs r _ (in_phase-Spends stderr r.errs.phase r.errs r.owner r.sent)

abbrev SpendsAll : List Stream → ℕ → Relay → Type 0
SpendsAll ss n r = n ≡ to_go r + length ss

spent_next :
    (s : Stream) (ss : List Stream) (n : ℕ) (o : Option Relay)
    → ((r : Relay) → Then (SpendsAll ss (to_go r)) (run_relay ss r))
    → Then (SpendsRelay n) o
    → Then (SpendsAll (s ∷ ss) n) (go_on (run_relay ss) o)
spent_next s ss n none h p = tt
spent_next s ss n (some r) h p = later (run_relay ss r) (h r)
  where
    later : (o : Option Relay) → Then (SpendsAll ss (to_go r)) o → Then (SpendsAll (s ∷ ss) n) o
    later none q = tt
    later (some r') q = omega (arith, p, q)

run_relay-Spends : (ss : List Stream) (r : Relay) → Then (SpendsAll ss (to_go r)) (run_relay ss r)
unfolding run_relay
run_relay-Spends [] r = omega arith
run_relay-Spends (s ∷ ss) r =
    spent_next s ss (to_go r) (relay_step s r) (run_relay-Spends ss) (relay_step-Spends s r)

-- A goroutine with steps left is blocked only before Lock, by the other one.
abbrev Moves : Stream → Phase → Copier → Option Stream → List Text → Type 0
Moves s p c owner sent =
    (t : Copier × Option Stream × List Text) × (in_phase s p c owner sent ≡ some t)

reading-Moves :
    (cs : List Chunk) (owner : Option Stream) (sent : List Text)
    → 0 < steps_of cs
    → (t : Copier × Option Stream × List Text) × (on_read cs owner sent ≡ some t)
unfolding steps_of
reading-Moves [] owner sent h = absurd (omega (arith, h))
reading-Moves (c ∷ cs) owner sent h = (_, refl)

holder-Moves :
    (s : Stream) (p : Phase) (c : Copier) (owner : Option Stream) (sent : List Text)
    → holds p ≡ true
    → Moves s p c owner sent
holder-Moves s (writing n failed) c owner sent h = (_, refl)
holder-Moves s (unlocking failed) c owner sent h = (_, refl)
holder-Moves s reading c owner sent h = cc h
holder-Moves s (locking n failed) c owner sent h = cc h
holder-Moves s returned c owner sent h = cc h

step_or_wait :
    (s : Stream) (p : Phase) (c : Copier) (owner : Option Stream) (sent : List Text)
    → 0 < left_in p c.input
    → Moves s p c owner sent ⊎ ((t : Stream) × (owner ≡ some t))
step_or_wait s reading c owner sent h = inl (reading-Moves c.input owner sent h)
step_or_wait s (locking n failed) c none sent h = inl (_, refl)
step_or_wait s (locking n failed) c (some t) sent h = inr (t, refl)
step_or_wait s (writing n failed) c owner sent h = inl (_, refl)
step_or_wait s (unlocking failed) c owner sent h = inl (_, refl)
step_or_wait s returned c owner sent h = absurd (omega (arith, h))

abbrev pub Steps : Relay → Type 0
Steps r = (s : Stream) × (r' : Relay) × (relay_step s r ≡ some r')

out-Steps : (r : Relay) → Moves stdout r.out.phase r.out r.owner r.sent → Steps r
unfolding relay_step copy_step
out-Steps r (t, e) = (stdout, _, ap (with_out r) e)

errs-Steps : (r : Relay) → Moves stderr r.errs.phase r.errs r.owner r.sent → Steps r
unfolding relay_step copy_step
errs-Steps r (t, e) = (stderr, _, ap (with_errs r) e)

owner-Steps :
    {outs errs : List Chunk} {r : Relay} (v : IsRelayed outs errs r) (t : Stream)
    → r.owner ≡ some t
    → Steps r
owner-Steps {r} v stdout e =
    out-Steps r
      (holder-Moves stdout r.out.phase r.out r.owner r.sent (sym v.out_own ∙ ap (owned stdout) e))
owner-Steps {r} v stderr e =
    errs-Steps r (
      holder-Moves stderr r.errs.phase r.errs r.owner r.sent (sym v.errs_own ∙ ap (owned stderr) e))

not_stuck :
    {outs errs : List Chunk} {r : Relay}
    → IsRelayed outs errs r
    → (0 < left r.out) ⊎ (0 < left r.errs)
    → Steps r
not_stuck {r} v (inl h) = elim (step_or_wait stdout r.out.phase r.out r.owner r.sent h) [
  | inl m ↦ out-Steps r m
  | inr (t, e) ↦ owner-Steps v t e
]
not_stuck {r} v (inr h) = elim (step_or_wait stderr r.errs.phase r.errs r.owner r.sent h) [
  | inl m ↦ errs-Steps r m
  | inr (t, e) ↦ owner-Steps v t e
]

steps_of-messages : (cs : List Chunk) → steps_of cs ≡ 0 → messages cs ≡ []
unfolding steps_of messages
steps_of-messages [] h = refl
steps_of-messages (c ∷ cs) h = ground arith

left-pending : (p : Phase) (c : Copier) → left_in p c.input ≡ 0 → pending_in p c ≡ []
left-pending reading c h = steps_of-messages c.input h
left-pending (locking n failed) c h = absurd (omega (arith, h))
left-pending (writing n failed) c h = absurd (omega (arith, h))
left-pending (unlocking failed) c h = absurd (omega (arith, h))
left-pending returned c h = refl

whole : (done rest ms : List Text) → done ++ rest ≡ ms → rest ≡ [] → done ≡ ms
whole done rest ms e f = sym (append_empty done) ∙ ap (λ t. done ++ t) (sym f) ∙ e

all_sent :
    {outs errs : List Chunk} {r : Relay}
    → IsRelayed outs errs r
    → to_go r ≡ 0
    → Merge (messages outs) (messages errs) r.sent
all_sent {r} v h =
    let o = whole v.from_out _ _ v.out_eq (left-pending r.out.phase r.out (omega (arith, h))) in
    let e = whole v.from_errs _ _ v.errs_eq (left-pending r.errs.phase r.errs (omega (arith, h))) in
    subst (λ os. Merge os _ r.sent) o (subst (λ es. Merge v.from_out es r.sent) e v.merged)

-- Whatever the scheduler does, it takes a fixed number of steps to copy both streams up to their ends:
-- Read, and for each nonempty read Lock, WriteMessage and Unlock. Before that, one of the two goroutines
-- can go on, also where the other one waits for the mutex; and when those steps are taken, the browser
-- has been sent a merge of all that was read on both.
pub run_relay_progress :
    (outs errs : List Chunk) (ss : List Stream) (r : Relay)
    → run_relay ss (start_relay outs errs) ≡ some r
    → (length ss < steps_of outs + steps_of errs × Steps r)
      ⊎ ((length ss ≡ steps_of outs + steps_of errs) × Merge (messages outs) (messages errs) r.sent)
run_relay_progress outs errs ss r h =
    let v = run_relay-IsRelayed outs errs ss h in
    let spent =
      from_then (SpendsAll ss (steps_of outs + steps_of errs)) _ h
        (run_relay-Spends ss (start_relay outs errs)) in
    elim (positive (left r.out) (left r.errs)) [
      | inl some_left ↦ inl (omega (arith, spent, some_left), not_stuck v some_left)
      | inr none_left ↦ inr (omega (arith, spent, none_left), all_sent v none_left)
    ]
  where
    positive : (a b : ℕ) → ((0 < a) ⊎ (0 < b)) ⊎ (a + b ≡ 0)
    positive zero zero = inr refl
    positive zero (suc b) = inl (inr (omega arith))
    positive (suc a) b = inl (inl (omega arith))
