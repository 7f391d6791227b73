-- ===== src/Agent/Faults/Start.antt =====
-- What startFault does to the map activeFaults, and stopFault after it.
use onfire.Prelude.{◌⊎◌, ℕ, ◌+◌, ◌≡◌, refl, Option, none, some, arith, inl, inr, if◌then◌else◌}
use onfire.Prelude.Text.{Text, text_eq, text_eq_iff}
use onfire.Prelude.Dict.{lookup, insert, lookup-insert, lookup-delete}
use onfire.Agent.Commands.{FaultError, Effect, already_running}
use onfire.Agent.Faults.{
  FaultRequest, Agent, Machine, run_fault, settle, registered, begin_start, finish_start,
  after_begin, start_fault, stop_active, stop_fault,
}

stop_fault-active :
    (id j : Text) (a : Agent)
    → lookup j (stop_fault id a).active ≡ (if text_eq id j then none else lookup j a.active)
unfolding stop_fault
stop_fault-active id j a = go (lookup id a.active) refl
  where
    go :
        (o : Option ℕ)
        → lookup id a.active ≡ o
        → lookup j (stop_active id o a).active ≡ (if text_eq id j then none else lookup j a.active)
    go none e = ground (arith, text_eq_iff id j)
    go (some n) e = lookup-delete id j a.active

module _ (req : FaultRequest) (a : Agent) where
  -- A start that fails leaves the map as it was.
  abbrev pub HasActiveOf : Agent → Agent → Type 0
  HasActiveOf b c = (j : Text) → lookup j b.active ≡ lookup j c.active

  abbrev pub IsStart : Agent × Option FaultError → Type 0
  IsStart (b, none) =
      (lookup req.id a.active ≡ none)
      × ((j : Text)
          → lookup j b.active ≡ (if text_eq req.id j then some a.created else lookup j a.active))
      × HasActiveOf (stop_fault req.id b) a
  IsStart (b, some e) = HasActiveOf b a × ((lookup req.id a.active ≡ none) ⊎ (e ≡ already_running))

-- For every request and every state of the agent, where no other request comes while the commands of
-- the fault run. If startFault returns nil, then its ID was free,
-- the map now holds the new context under it and is otherwise unchanged, and a stop of the ID brings
-- back the map as it was. If it returns an error, the map is unchanged; and a request whose ID is
-- active is answered with "already running".
pub start_fault-IsStart :
    (m : Machine) (req : FaultRequest) (a : Agent) → IsStart req a (start_fault m req a)
unfolding start_fault begin_start finish_start
start_fault-IsStart m req a = go (lookup req.id a.active) refl
  where
    settled :
        (o : Option FaultError) (e : Effect)
        → lookup req.id a.active ≡ none
        → IsStart req a (
            settle m req a.created e o
              (record a { active = insert req.id a.created a.active; created = a.created + 1 }))
    settled none e absent = (
      absent,
      (λ j. lookup-insert req.id j a.created a.active),
      λ j. ground (
        arith,
        stop_fault-active req.id j
            (settle m req a.created e none
              (record a { active = insert req.id a.created a.active; created = a.created + 1 })).0,
        lookup-insert req.id j a.created a.active,
        text_eq_iff req.id j,
        absent,
      ),
    )
    settled (some err) e absent = (
      (λ j. ground (
        arith,
        lookup-delete req.id j (insert req.id a.created a.active),
        lookup-insert req.id j a.created a.active,
        text_eq_iff req.id j,
        absent,
      )),
      inl absent,
    )

    go :
        (o : Option ℕ)
        → lookup req.id a.active ≡ o
        → IsStart req a (after_begin m req (registered req o a))
    go none absent = settled (run_fault m req).error (run_fault m req) absent
    go (some other) e = ((λ j. refl), inr refl)
