-- ===== src/Cmd/Relay.antt =====
-- The output of a shell in the web terminal: the two goroutines of wsHandler of cmd/serve.go that copy
-- stdout and stderr to the browser, each with its own buffer, under one mutex. What Read answers is an
-- argument, call by call; a stream with no further answer blocks.
pub mod Order
pub mod Progress
use onfire.Prelude.{
  ℕ, ◌+◌, List, [], ◌∷◌, ◌++◌, Bool, true, false, Option, none, some, if◌then◌else◌, take, ltb,
}
use onfire.Prelude.Text.{Text}

-- An answer of Read: what the buffer holds behind the call, the number of bytes read, and whether there
-- is an error.
pub record Chunk : Type 0 where
  pub buffer : Text
  pub count : ℕ
  pub failed : Bool

pub data Stream : Type 0 where
  stdout stderr : Stream

-- Where a goroutine stands: before Read, before Lock, between Lock and WriteMessage, before Unlock, or
-- behind its return. What is carried along is n, and whether err is not nil.
pub data Phase : Type 0 where
  reading : Phase
  locking : ℕ → Bool → Phase
  writing : ℕ → Bool → Phase
  unlocking : Bool → Phase
  returned : Phase

pub record Copier : Type 0 where
  pub buf : Text
  pub phase : Phase
  pub input : List Chunk

-- The two goroutines, who holds the mutex, and the messages given to WriteMessage, the first one first.
pub record Relay : Type 0 where
  pub out : Copier
  pub errs : Copier
  pub owner : Option Stream
  pub sent : List Text

-- The end of the loop's body.
abbrev pub next_round : Bool → Phase
next_round true = returned
next_round false = reading

-- Behind Read: wsWrite is called where something was read.
abbrev pub after_read : Chunk → Phase
after_read c = if ltb 0 c.count then locking c.count c.failed else next_round c.failed

-- A step of the goroutine of `s`: what becomes of it, of the mutex and of the messages; none where it
-- is blocked, or has returned.
abbrev pub on_read :
    List Chunk → Option Stream → List Text → Option (Copier × Option Stream × List Text)
on_read [] owner sent = none
on_read (c ∷ cs) owner sent =
    some (record { buf = c.buffer; phase = after_read c; input = cs }, owner, sent)

abbrev pub on_lock :
    Stream
    → ℕ
    → Bool
    → Copier
    → Option Stream
    → List Text
    → Option (Copier × Option Stream × List Text)
on_lock s n failed c (some other) sent = none
on_lock s n failed c none sent = some (record c { phase = writing n failed }, some s, sent)

abbrev pub in_phase :
    Stream
    → Phase
    → Copier
    → Option Stream
    → List Text
    → Option (Copier × Option Stream × List Text)
in_phase s reading c owner sent = on_read c.input owner sent
in_phase s (locking n failed) c owner sent = on_lock s n failed c owner sent
in_phase s (writing n failed) c owner sent =
    some (record c { phase = unlocking failed }, owner, sent ++ (take n c.buf ∷ []))
in_phase s (unlocking failed) c owner sent =
    some (record c { phase = next_round failed }, none, sent)
in_phase s returned c owner sent = none

unfoldable pub copy_step :
    Stream → Copier → Option Stream → List Text → Option (Copier × Option Stream × List Text)
copy_step s c owner sent = in_phase s c.phase c owner sent

abbrev pub with_out : Relay → Option (Copier × Option Stream × List Text) → Option Relay
with_out r none = none
with_out r (some (c, owner, sent)) = some (record r { out = c; owner = owner; sent = sent })

abbrev pub with_errs : Relay → Option (Copier × Option Stream × List Text) → Option Relay
with_errs r none = none
with_errs r (some (c, owner, sent)) = some (record r { errs = c; owner = owner; sent = sent })

-- One goroutine makes a step.
unfoldable pub relay_step : Stream → Relay → Option Relay
unfolding copy_step
relay_step stdout r = with_out r (copy_step stdout r.out r.owner r.sent)
relay_step stderr r = with_errs r (copy_step stderr r.errs r.owner r.sent)

abbrev pub copier : List Chunk → Copier
copier input = record { buf = []; phase = reading; input = input }

-- The goroutines have been started: `outs` and `errs` are what Read will answer on each stream.
abbrev pub start_relay : List Chunk → List Chunk → Relay
start_relay outs errs = record { out = copier outs; errs = copier errs; owner = none; sent = [] }

abbrev pub go_on : (Relay → Option Relay) → Option Relay → Option Relay
go_on f none = none
go_on f (some r) = f r

-- The steps in the order in which the scheduler takes them, none if one of them is blocked.
unfoldable pub run_relay : List Stream → Relay → Option Relay
unfolding relay_step
run_relay [] r = some r
run_relay (s ∷ ss) r = go_on (run_relay ss) (relay_step s r)
