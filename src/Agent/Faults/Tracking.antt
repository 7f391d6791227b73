-- ===== src/Agent/Faults/Tracking.antt =====
-- Contexts and the map activeFaults.
use onfire.Prelude.{
  ◌⊎◌, ◌&&◌, ◌++◌, not, Bool, List, [], ◌∷◌, ℕ, ◌<◌, ◌≡◌, refl, true, false, Option, none, some,
  arith, contains, Bool-cases, inl, inr, ◌==◌,
}
use onfire.Prelude.Text.{Text, text_eq_iff, text_eq_refl}
use onfire.Prelude.Dict.{lookup, delete, lookup-insert, lookup-delete}
use onfire.Agent.Commands.{FaultError, Effect}
use onfire.Agent.Faults.{
  FaultRequest, Agent, new_agent, Timer, Machine, run_fault, settle, registered, begin_start,
  finish_start, stop_active, stop_fault, fire_timer,
}

-- The contexts that are not cancelled are those of the map, each under one ID.
pub record IsTracked (a : Agent) : Type 0 where
  pub tracked :
      (n : ℕ)
      → n < a.created
      → contains n a.cancelled ≡ false
      → (id : Text) × (lookup id a.active ≡ some n)
  pub live :
      (id : Text) (n : ℕ)
      → lookup id a.active ≡ some n
      → (n < a.created) × (contains n a.cancelled ≡ false)
  pub known : (n : ℕ) → contains n a.cancelled ≡ true → n < a.created
  pub distinct :
      (i j : Text) (n : ℕ) → lookup i a.active ≡ some n → lookup j a.active ≡ some n → i ≡ j

-- A start that fails finds its own context in the map.
abbrev pub EndsWell : Machine → FaultRequest → ℕ → Agent → Type 0
EndsWell m req n a = ((run_fault m req).error ≡ none) ⊎ (lookup req.id a.active ≡ some n)

module _ (a : Agent) (inv : IsTracked a) where
  -- A fault leaves the map, and its context is cancelled.
  removed-IsTracked :
      (id : Text) (n : ℕ)
      → lookup id a.active ≡ some n
      → IsTracked (record a { active = delete id a.active; cancelled = n ∷ a.cancelled })
  removed-IsTracked id n e = record {
    tracked = λ k lt h.
        let (i, at) = inv.tracked k lt (ground arith) in
        (i, ground (arith, lookup-delete id i a.active, text_eq_iff id i));
    live = λ i k h.
        ground
          (arith, lookup-delete id i a.active, text_eq_iff id i, inv.live i k, inv.distinct i id k);
    known = λ k h. ground (arith, inv.known k, inv.live id n e);
    distinct = λ i j k hi hj.
        inv.distinct i j k (ground (arith, lookup-delete id i a.active))
          (ground (arith, lookup-delete id j a.active));
  }

  stop_fault-IsTracked : (id : Text) → IsTracked (stop_fault id a)
  unfolding stop_fault
  stop_fault-IsTracked id = go (lookup id a.active) refl
    where
      go : (o : Option ℕ) → lookup id a.active ≡ o → IsTracked (stop_active id o a)
      go none e = inv
      go (some n) e = removed-IsTracked id n e

  fire_timer-IsTracked : (late : Bool) (t : Timer) → IsTracked (fire_timer late t a)
  unfolding fire_timer
  fire_timer-IsTracked late t = elim (Bool-cases (contains t.context a.cancelled && not late)) [
    | inl e ↦ rw e inv
    | inr e ↦ rw e (stop_fault-IsTracked t.id)
  ]

  begin_start-IsTracked : (req : FaultRequest) → IsTracked (begin_start req a).0
  unfolding begin_start
  begin_start-IsTracked req = go (lookup req.id a.active) refl
    where
      go : (o : Option ℕ) → lookup req.id a.active ≡ o → IsTracked (registered req o a).0
      go none absent = record {
        tracked = λ k lt h. elim (Bool-cases (a.created == k)) [
          | inl t ↦ (
            req.id,
            ground (arith, lookup-insert req.id req.id a.created a.active, text_eq_refl req.id),
          )
          | inr t ↦
              let (i, at) = inv.tracked k (ground arith) h in
              (i, ground (arith, lookup-insert req.id i a.created a.active, text_eq_iff req.id i))
        ];
        live = λ i k h.
            ground (arith, lookup-insert req.id i a.created a.active, inv.live i k, inv.known k);
        known = λ k h. ground (arith, inv.known k);
        distinct = λ i j k hi hj. ground (
          arith,
          lookup-insert req.id i a.created a.active,
          lookup-insert req.id j a.created a.active,
          inv.live i k,
          inv.live j k,
          inv.distinct i j k,
          text_eq_iff req.id i,
          text_eq_iff req.id j,
        );
      }
      go (some other) e = record {
        tracked = λ k lt h. inv.tracked k (ground arith) (ground arith);
        live = λ i k h. ground (arith, inv.live i k);
        known = λ k h. ground (arith, inv.known k);
        distinct = inv.distinct;
      }

  module _ (m : Machine) (req : FaultRequest) (n : ℕ) where
    finish_start-IsTracked : EndsWell m req n a → IsTracked (finish_start m req n a).0
    unfolding finish_start
    finish_start-IsTracked (inl works) = rw works (record {
      tracked = inv.tracked;
      live = inv.live;
      known = inv.known;
      distinct = inv.distinct;
    })
    finish_start-IsTracked (inr at) = go (run_fault m req).error (run_fault m req)
      where
        go : (o : Option FaultError) (e : Effect) → IsTracked (settle m req n e o a).0
        go none e = record {
          tracked = inv.tracked;
          live = inv.live;
          known = inv.known;
          distinct = inv.distinct;
        }
        go (some err) e = removed-IsTracked req.id n at

-- The agent, and the starts that are between their two critical sections.
pub record Running : Type 0 where
  pub agent : Agent
  pub starting : List (FaultRequest × ℕ)

abbrev pub with_start : FaultRequest → Option ℕ → List (FaultRequest × ℕ) → List (FaultRequest × ℕ)
with_start req none starts = starts
with_start req (some n) starts = (req, n) ∷ starts

module _ (m : Machine) where
  -- The first section of a start, the end of one that is under way, a request to stop a fault, or a
  -- timer that ends, in any order. A start that fails does so before its fault has been stopped.
  pub data Move (s : Running) : Running → Type 0 where
    began :
        (req : FaultRequest)
        → Move s (record {
          agent = (begin_start req s.agent).0;
          starting = with_start req (begin_start req s.agent).1 s.starting;
        })
    finished :
        (req : FaultRequest) (n : ℕ) (before after : List (FaultRequest × ℕ))
        → s.starting ≡ before ++ ((req, n) ∷ after)
        → EndsWell m req n s.agent
        → Move s (record { agent = (finish_start m req n s.agent).0; starting = before ++ after })
    stopped : (id : Text) → Move s (record s { agent = stop_fault id s.agent })
    timed_out : (late : Bool) (t : Timer) → Move s (record s { agent = fire_timer late t s.agent })

  pub data History (s : Running) : Running → Type 0 where
    begin : History s s
    then_move : {t u : Running} → History s t → Move t u → History s u

abbrev pub new_running : Running
new_running = record { agent = new_agent; starting = [] }

module _ {m : Machine} where
  Move-IsTracked : {s t : Running} → Move m s t → IsTracked s.agent → IsTracked t.agent
  Move-IsTracked {s} (began req) inv = begin_start-IsTracked s.agent inv req
  Move-IsTracked {s} (finished req n before after e ends) inv =
      finish_start-IsTracked s.agent inv m req n ends
  Move-IsTracked {s} (stopped id) inv = stop_fault-IsTracked s.agent inv id
  Move-IsTracked {s} (timed_out late t) inv = fire_timer-IsTracked s.agent inv late t

-- In every state of the agent that is reached by starts, each in its two critical sections, by stops
-- and by timers, in any order, whatever the commands of the machine do, as long as no start fails after
-- its fault has been stopped: each context that has been created and not cancelled is in the map under
-- an ID, so that a stop reaches it; each one in the map is not cancelled; and two IDs do not share a
-- context.
pub History-IsTracked : {m : Machine} {s : Running} → History m new_running s → IsTracked s.agent
unfolding lookup
History-IsTracked begin = record {
  tracked = λ n lt h. absurd (none_created lt);
  live = λ i n h. cc;
  known = λ n h. cc;
  distinct = λ i j n hi hj. cc;
}
  where
    none_created : {n : ℕ} → n < 0 → ⊥
    none_created h = omega arith
History-IsTracked (then_move h move) = Move-IsTracked move (History-IsTracked h)
