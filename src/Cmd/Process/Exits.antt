-- ===== src/Cmd/Process/Exits.antt =====
-- When the processes of serverCmd and serveCmd exit, and what they leave.
use onfire.Prelude.{
  ℕ, zero, suc, ◌+◌, ◌≡◌, refl, ap, ◌∙◌, List, [], ◌∷◌, Bool, true, false, ◌&&◌, ◌||◌, not, Option,
  none, some, Option-cases, inl, inr, arith,
}
use onfire.Cmd.Process.{
  Process, Happening, signal, listen_fails, request_begins, request_ends, fleet_returns, shutdown,
  main_returns, happens, process_step, process_run, start_process,
}

-- Whether something happens in a history.
abbrev pub occurs : (Happening → Bool) → List Happening → Bool
occurs f [] = false
occurs f (h ∷ hs) = f h || occurs f hs

abbrev pub is_signal : Happening → Bool
is_signal signal = true
is_signal _ = false

abbrev pub is_listen_error : Happening → Bool
is_listen_error listen_fails = true
is_listen_error _ = false

-- Behind a signal that was (not) seen and an error of ListenAndServe that was (not): the context is done
-- only for a signal, Shutdown is called only then, and the exit code, if there is one, is 0 behind
-- Shutdown, and 1 for the error and before Shutdown.
abbrev pub code_fits : Bool → Bool → Option ℕ → Bool
code_fits failed shut none = true
code_fits failed shut (some zero) = shut
code_fits failed shut (some (suc zero)) = failed && not shut
code_fits failed shut (some (suc (suc n))) = false

pub record IsSound (signalled failed : Bool) (p : Process) : Type 0 where
  pub for_signal : (p.cancelled && not signalled) ≡ false
  pub when_cancelled : (p.shut && not p.cancelled) ≡ false
  pub code : code_fits failed p.shut p.code ≡ true

code_fits-later :
    (failed more shut : Bool) (c : Option ℕ)
    → code_fits failed shut c ≡ true
    → code_fits (failed || more) shut c ≡ true
code_fits-later failed more shut none h = refl
code_fits-later failed more shut (some zero) h = h
code_fits-later failed more shut (some (suc zero)) h = ground arith
code_fits-later failed more shut (some (suc (suc n))) h = h

happens-IsSound :
    (h : Happening) (a b : Bool) {p : Process}
    → p.code ≡ none
    → IsSound a b p
    → IsSound (a || is_signal h) (b || is_listen_error h) (happens h p)
happens-IsSound signal a b n v = ground arith
happens-IsSound listen_fails a b n v = ground arith
happens-IsSound request_begins a b n v = ground arith
happens-IsSound request_ends a b n v = ground arith
happens-IsSound fleet_returns a b n v = ground arith
happens-IsSound shutdown a b n v = ground arith
happens-IsSound main_returns a b n v = ground arith

stays-IsSound :
    (h : Happening) (a b : Bool) {p : Process}
    → IsSound a b p
    → IsSound (a || is_signal h) (b || is_listen_error h) p
stays-IsSound h a b {p} v = record {
  for_signal = ground (arith, v.for_signal);
  when_cancelled = v.when_cancelled;
  code = code_fits-later b (is_listen_error h) p.shut p.code v.code;
}

process_step-IsSound :
    (h : Happening) (a b : Bool) {p : Process}
    → IsSound a b p
    → IsSound (a || is_signal h) (b || is_listen_error h) (process_step h p)
unfolding process_step
process_step-IsSound h a b {p} v = elim (Option-cases p.code) [
  | inl e ↦ simp e (happens-IsSound h a b e v)
  | inr (n, e) ↦ simp e (stays-IsSound h a b v)
]

or_assoc : (a b c : Bool) → ((a || b) || c) ≡ (a || (b || c))
or_assoc true b c = refl
or_assoc false b c = refl

or_false : (a : Bool) → (a || false) ≡ a
or_false true = refl
or_false false = refl

process_run-keeps :
    (hs : List Happening) (a b : Bool) {p : Process}
    → IsSound a b p
    → IsSound (a || occurs is_signal hs) (b || occurs is_listen_error hs) (process_run hs p)
unfolding process_run
process_run-keeps [] a b v = simp or_false v
process_run-keeps (h ∷ hs) a b v =
    simp (← or_assoc) (process_run-keeps hs _ _ (process_step-IsSound h a b v))

-- In whichever order things happen, the process of a server exits only with 0, behind a signal and the
-- call of Shutdown, or with 1, for an error of ListenAndServe and before that call.
pub process_run-IsSound :
    (fleet : Bool) (hs : List Happening)
    → IsSound
        (occurs is_signal hs)
        (occurs is_listen_error hs)
        (process_run hs (start_process fleet))
process_run-IsSound fleet hs =
    process_run-keeps hs false false
      (record { for_signal = refl; when_cancelled = refl; code = refl })

-- A signal comes while requests are handled.
abbrev pub begin_requests : ℕ → List Happening
begin_requests zero = signal ∷ shutdown ∷ main_returns ∷ []
begin_requests (suc n) = request_begins ∷ begin_requests n

-- What is left at the exit: the requests that are handled, and the goroutine of the fleet.
abbrev pub cut_off : ℕ → Bool → Process
cut_off active fleet = record {
  cancelled = true;
  shut = true;
  active = active;
  fleet = fleet;
  code = some 0;
}

with_requests :
    (fleet : Bool) (n k : ℕ)
    → process_run (begin_requests n) (record (start_process fleet) { active = k })
      ≡ cut_off (k + n) fleet
unfolding process_run
with_requests fleet zero k = ap (λ m. cut_off m fleet) (omega arith)
with_requests fleet (suc n) k =
    with_requests fleet n (k + 1) ∙ ap (λ m. cut_off m fleet) (omega arith)

-- The main goroutine does not wait for Shutdown: with any number of requests being handled, a signal
-- lets the process exit with 0 before one of them has ended, and before the launchFleet of serveCmd has
-- returned and stopped its VMs.
pub exits_with_requests :
    (fleet : Bool) (n : ℕ) → process_run (begin_requests n) (start_process fleet) ≡ cut_off n fleet
exits_with_requests fleet n = with_requests fleet n 0 ∙ ap (λ m. cut_off m fleet) (omega arith)
