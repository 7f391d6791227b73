-- ===== src/Agent/Faults/Race.antt =====
-- What may happen between the two critical sections of startFault of agent/faults.go.
use onfire.Prelude.{
  subst, ◌==◌, ◌||◌, ℕ, ◌+◌, ◌≡◌, refl, ap, ◌∙◌, sym, List, [], ◌∷◌, Bool, true, false, none, some,
  contains, arith,
}
use onfire.Prelude.Text.{Text, text_eq_refl}
use onfire.Prelude.Dict.{lookup, insert, delete, lookup-insert, lookup-delete}
use onfire.Agent.Commands.{FaultError}
use onfire.Agent.Faults.{
  FaultRequest, Agent, Machine, Job, run_fault, settle, begin_start, finish_start, stop_fault,
  stop_active, is_background,
}

-- A request is begun, the fault of its ID is stopped, a second request of that ID is begun and
-- finished, and then the first one is finished.
unfoldable pub overlapped : Machine → FaultRequest → FaultRequest → Agent → Agent
unfolding begin_start finish_start stop_fault
overlapped m first second a =
    let begun = (begin_start first a).0 in
    let stopped = stop_fault first.id begun in
    let again = (begin_start second stopped).0 in
    let running = (finish_start m second (a.created + 1) again).0 in
    (finish_start m first a.created running).0

abbrev begun : FaultRequest → Agent → Agent
begun req a = record a { active = insert req.id a.created a.active; created = a.created + 1 }

begin_start-begun :
    (req : FaultRequest) (a : Agent)
    → lookup req.id a.active ≡ none
    → (begin_start req a).0 ≡ begun req a
unfolding begin_start
begin_start-begun req a h = rw h refl

abbrev stopped : Text → ℕ → Agent → Agent
stopped id n a = record a { active = delete id a.active; cancelled = n ∷ a.cancelled }

stop_fault-stopped :
    (id : Text) (n : ℕ) (a : Agent) → lookup id a.active ≡ some n → stop_fault id a ≡ stopped id n a
unfolding stop_fault
stop_fault-stopped id n a h = ap (λ o. stop_active id o a) h

stop_fault-none : (id : Text) (a : Agent) → lookup id a.active ≡ none → stop_fault id a ≡ a
unfolding stop_fault
stop_fault-none id a h = ap (λ o. stop_active id o a) h

-- A background fault never fails, and has a job.
abbrev job_of : FaultRequest → ℕ → Job
job_of req n = record { context = n; fault_type = req.fault_type; on_cancel = [] }

finish_start-job :
    (m : Machine) (req : FaultRequest) (n : ℕ) (a : Agent)
    → is_background req.fault_type ≡ true
    → (finish_start m req n a).0
      ≡ record a { jobs = job_of req n ∷ a.jobs; timers = (finish_start m req n a).0.timers }
unfolding finish_start run_fault
finish_start-job m req n a h = simp h refl

finish_start-failed :
    (m : Machine) (req : FaultRequest) (n : ℕ) (a : Agent) (e : FaultError)
    → (run_fault m req).error ≡ some e
    → (finish_start m req n a).0
      ≡ record a { active = delete req.id a.active; cancelled = n ∷ a.cancelled }
unfolding finish_start
finish_start-failed m req n a e h = ap (λ o. (settle m req n (run_fault m req) o a).0) h

-- The agent before the second request is finished.
abbrev restarted : FaultRequest → FaultRequest → Agent → Agent
restarted first second a = begun second (stopped first.id a.created (begun first a))

again-restarted :
    (first second : FaultRequest) (a : Agent)
    → second.id ≡ first.id
    → lookup first.id a.active ≡ none
    → (begin_start second (stop_fault first.id (begin_start first a).0)).0
      ≡ restarted first second a
again-restarted first second a same fresh =
    let b = begun first a in
    let there : lookup first.id b.active ≡ some a.created =
      lookup-insert first.id first.id a.created a.active ∙ rw (text_eq_refl first.id) refl in
    let gone : lookup second.id (delete first.id b.active) ≡ none =
      ap (λ i. lookup i (delete first.id b.active)) same
      ∙ lookup-delete first.id first.id b.active
      ∙ rw (text_eq_refl first.id) refl in
    ap (λ x. (begin_start second (stop_fault first.id x)).0) (begin_start-begun first a fresh)
    ∙ ap (λ x. (begin_start second x).0) (stop_fault-stopped first.id a.created b there)
    ∙ begin_start-begun second (stopped first.id a.created b) gone

-- Whether a job runs under a context.
abbrev pub has_job : ℕ → List Job → Bool
has_job n [] = false
has_job n (j ∷ js) = (j.context == n) || has_job n js

-- A fault is started that is going to fail; while its commands run it is stopped, and a background fault
-- is started under the same ID. When the first one has failed, the map has no fault of that ID, so that
-- stopping it changes nothing; but the context of the second one is not cancelled, and its goroutine
-- runs on. Before, the ID was free and the second context was not a cancelled one.
pub overlapped_leaks :
    (m : Machine) (first second : FaultRequest) (a : Agent) (e : FaultError)
    → second.id ≡ first.id
    → lookup first.id a.active ≡ none
    → contains (a.created + 1) a.cancelled ≡ false
    → is_background second.fault_type ≡ true
    → (run_fault m first).error ≡ some e
    → let b = overlapped m first second a in
      (lookup first.id b.active ≡ none)
      × (stop_fault first.id b ≡ b)
      × (contains (a.created + 1) b.cancelled ≡ false)
      × (has_job (a.created + 1) b.jobs ≡ true)
unfolding overlapped
overlapped_leaks m first second a e same fresh new background fails =
    let c = restarted first second a in
    let d = (finish_start m second (a.created + 1) c).0 in
    let final : Agent = record d {
      active = delete first.id d.active;
      cancelled = a.created ∷ d.cancelled;
    } in
    let reached : overlapped m first second a ≡ final =
      ap (λ x. (finish_start m first a.created (finish_start m second (a.created + 1) x).0).0)
        (again-restarted first second a same fresh)
      ∙ finish_start-failed m first a.created d e fails in
    let job = finish_start-job m second (a.created + 1) c background in
    let free : lookup first.id (delete first.id d.active) ≡ none =
      lookup-delete first.id first.id d.active ∙ rw (text_eq_refl first.id) refl in
    let free' : lookup first.id final.active ≡ none = free in
    let lives : contains (a.created + 1) d.cancelled ≡ false =
      ap (λ x. contains (a.created + 1) x.cancelled) job ∙ ground (arith, new) in
    let runs : has_job (a.created + 1) d.jobs ≡ true =
      ap (λ x. has_job (a.created + 1) x.jobs) job ∙ ground arith in
    subst
      (λ b.
        (lookup first.id b.active ≡ none)
        × (stop_fault first.id b ≡ b)
        × (contains (a.created + 1) b.cancelled ≡ false)
        × (has_job (a.created + 1) b.jobs ≡ true))
      (sym reached) (free', stop_fault-none first.id final free', ground (arith, lives), runs)
