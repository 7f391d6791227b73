-- ===== src/Cmd/Relay/Order.antt =====
-- What reaches the browser in which order, and who holds the mutex of wsHandler of cmd/serve.go.
use onfire.Prelude.{
  ◌≡◌, refl, ap, sym, ◌∙◌, List, [], ◌∷◌, ◌++◌, Bool, true, false, ◌&&◌, Option, none, some,
  if◌then◌else◌, take, ltb, append_empty, subst, some_eq_some, Bool-cases, inl, inr,
}
use mathlib.Core.List.{append_assoc}
use onfire.Prelude.Text.{Text}
use onfire.Cmd.Relay.{
  Chunk, Stream, stdout, stderr, Phase, reading, locking, writing, unlocking, returned, Copier,
  Relay, next_round, after_read, on_read, in_phase, copy_step, relay_step, run_relay, start_relay,
  go_on, with_out, with_errs,
}

-- The nonempty reads of a stream up to its end: those before the first error, and the one beside it.
abbrev pub until_failure : Bool → List Text → List Text
until_failure true ms = []
until_failure false ms = ms

unfoldable pub messages : List Chunk → List Text
messages [] = []
messages (c ∷ cs) =
    let rest = until_failure c.failed (messages cs) in
    if ltb 0 c.count then take c.count c.buffer ∷ rest else rest

-- Two lists, merged: each keeps its order.
pub data Merge : List Text → List Text → List Text → Type 0 where
  nothing : Merge [] [] []
  left : {m : Text} {xs ys zs : List Text} → Merge xs ys zs → Merge (m ∷ xs) ys (m ∷ zs)
  right : {m : Text} {xs ys zs : List Text} → Merge xs ys zs → Merge xs (m ∷ ys) (m ∷ zs)

merge_left :
    (m : Text) {xs ys zs : List Text} → Merge xs ys zs → Merge (xs ++ (m ∷ [])) ys (zs ++ (m ∷ []))
merge_left m nothing = left nothing
merge_left m (left r) = left (merge_left m r)
merge_left m (right r) = right (merge_left m r)

merge_right :
    (m : Text) {xs ys zs : List Text} → Merge xs ys zs → Merge xs (ys ++ (m ∷ [])) (zs ++ (m ∷ []))
merge_right m nothing = right nothing
merge_right m (left r) = left (merge_right m r)
merge_right m (right r) = right (merge_right m r)

-- What a goroutine has still to write.
abbrev pub pending_in : Phase → Copier → List Text
pending_in reading c = messages c.input
pending_in (locking n failed) c = take n c.buf ∷ until_failure failed (messages c.input)
pending_in (writing n failed) c = take n c.buf ∷ until_failure failed (messages c.input)
pending_in (unlocking failed) c = until_failure failed (messages c.input)
pending_in returned c = []

abbrev pub pending : Copier → List Text
pending c = pending_in c.phase c

abbrev pub holds : Phase → Bool
holds (writing n failed) = true
holds (unlocking failed) = true
holds _ = false

abbrev pub owned : Stream → Option Stream → Bool
owned s none = false
owned stdout (some stdout) = true
owned stdout (some stderr) = false
owned stderr (some stdout) = false
owned stderr (some stderr) = true

abbrev pub other : Stream → Stream
other stdout = stderr
other stderr = stdout

abbrev listed : Option Text → List Text
listed none = []
listed (some m) = m ∷ []

-- At most one message is written, the first pending one. The mutex is held by who is about to write or to
-- unlock, and is taken from nobody else.
record Advanced (s : Stream) (p : Phase) (c : Copier) (owner : Option Stream) (sent : List Text)
    (c' : Copier) (owner' : Option Stream) (sent' : List Text) : Type 0 where
  written : Option Text
  sent_eq : sent' ≡ sent ++ listed written
  pending_eq : pending_in p c ≡ listed written ++ pending c'
  own : owned s owner' ≡ holds c'.phase
  others : owned (other s) owner' ≡ owned (other s) owner

abbrev pub Then {ℓ κ} : {A : Type ℓ} → (A → Type κ) → Option A → Type κ
Then P none = Unit
Then P (some a) = P a

abbrev AdvancedTo :
    (s : Stream) (p : Phase) (c : Copier) (owner : Option Stream) (sent : List Text)
    → Copier × Option Stream × List Text
    → Type 0
AdvancedTo s p c owner sent (c', owner', sent') = Advanced s p c owner sent c' owner' sent'

next_round-pending :
    (failed : Bool) (c : Copier)
    → until_failure failed (messages c.input) ≡ pending_in (next_round failed) c
next_round-pending true c = refl
next_round-pending false c = refl

next_round-holds : (failed : Bool) → holds (next_round failed) ≡ false
next_round-holds true = refl
next_round-holds false = refl

after_read-holds : (c : Chunk) → holds (after_read c) ≡ false
after_read-holds c = elim (Bool-cases (ltb 0 c.count)) [
  | inl t ↦ rw t refl
  | inr f ↦ rw f (next_round-holds c.failed)
]

after_read-pending :
    (c : Chunk) (cs : List Chunk)
    → messages (c ∷ cs)
      ≡ pending_in (after_read c) (record { buf = c.buffer; phase = after_read c; input = cs })
unfolding messages
after_read-pending c cs = elim (Bool-cases (ltb 0 c.count)) [
  | inl t ↦ rw t refl
  | inr f ↦ rw f (
      next_round-pending c.failed
        (record { buf = c.buffer; phase = next_round c.failed; input = cs }))
]

on_read-Advanced :
    (s : Stream) (c : Copier) (cs : List Chunk) (owner : Option Stream) (sent : List Text)
    → c.input ≡ cs
    → owned s owner ≡ false
    → Then (AdvancedTo s reading c owner sent) (on_read cs owner sent)
on_read-Advanced s c [] owner sent e h = tt
on_read-Advanced s c (k ∷ ks) owner sent e h = record {
  written = none;
  sent_eq = sym (append_empty sent);
  pending_eq = ap messages e ∙ after_read-pending k ks;
  own = h ∙ sym (after_read-holds k);
  others = refl;
}

taken : (s : Stream) → (owned s (some s) ≡ true) × (owned (other s) (some s) ≡ false)
taken stdout = (refl, refl)
taken stderr = (refl, refl)

-- Who holds the mutex is the only one.
exclusive :
    (s : Stream) (owner : Option Stream) → owned s owner ≡ true → owned (other s) owner ≡ false
exclusive s none h = refl
exclusive stdout (some stdout) h = refl
exclusive stdout (some stderr) h = cc
exclusive stderr (some stdout) h = cc
exclusive stderr (some stderr) h = refl

in_phase-Advanced :
    (s : Stream) (p : Phase) (c : Copier) (owner : Option Stream) (sent : List Text)
    → owned s owner ≡ holds p
    → Then (AdvancedTo s p c owner sent) (in_phase s p c owner sent)
in_phase-Advanced s reading c owner sent h = on_read-Advanced s c c.input owner sent refl h
in_phase-Advanced s (locking n failed) c (some t) sent h = tt
in_phase-Advanced s (locking n failed) c none sent h = record {
  written = none;
  sent_eq = sym (append_empty sent);
  pending_eq = refl;
  own = (taken s).0;
  others = (taken s).1;
}
in_phase-Advanced s (writing n failed) c owner sent h = record {
  written = some (take n c.buf);
  sent_eq = refl;
  pending_eq = refl;
  own = h;
  others = refl;
}
in_phase-Advanced s (unlocking failed) c owner sent h = record {
  written = none;
  sent_eq = sym (append_empty sent);
  pending_eq = next_round-pending failed (record c { phase = next_round failed });
  own = sym (next_round-holds failed);
  others = sym (exclusive s owner h);
}
in_phase-Advanced s returned c owner sent h = tt

-- The messages are a merge of what each goroutine has written; what it has written and what it has still
-- to write is all that it reads; and the mutex is held by who is about to write or to unlock.
pub record IsRelayed (outs errs : List Chunk) (r : Relay) : Type 0 where
  pub from_out : List Text
  pub from_errs : List Text
  pub merged : Merge from_out from_errs r.sent
  pub out_eq : from_out ++ pending r.out ≡ messages outs
  pub errs_eq : from_errs ++ pending r.errs ≡ messages errs
  pub out_own : owned stdout r.owner ≡ holds r.out.phase
  pub errs_own : owned stderr r.owner ≡ holds r.errs.phase

written_out :
    (w : Option Text) {xs ys zs : List Text}
    → Merge xs ys zs
    → Merge (xs ++ listed w) ys (zs ++ listed w)
written_out none m = simp append_empty m
written_out (some t) m = merge_left t m

written_errs :
    (w : Option Text) {xs ys zs : List Text}
    → Merge xs ys zs
    → Merge xs (ys ++ listed w) (zs ++ listed w)
written_errs none m = simp append_empty m
written_errs (some t) m = merge_right t m

-- What was to be written, with a message moved from the front of what is pending.
moved :
    (done written rest pending whole : List Text)
    → done ++ pending ≡ whole
    → pending ≡ written ++ rest
    → (done ++ written) ++ rest ≡ whole
moved done written rest pending whole e f =
    append_assoc done written rest ∙ ap (λ t. done ++ t) (sym f) ∙ e

module _ {outs errs : List Chunk} {r : Relay} (v : IsRelayed outs errs r) where
  moved_out :
      (o : Option (Copier × Option Stream × List Text))
      → Then (AdvancedTo stdout r.out.phase r.out r.owner r.sent) o
      → Then (IsRelayed outs errs) (with_out r o)
  moved_out none a = tt
  moved_out (some (c, owner, sent)) a = record {
    from_out = v.from_out ++ listed a.written;
    from_errs = v.from_errs;
    merged = rw a.sent_eq (written_out a.written v.merged);
    out_eq = moved v.from_out (listed a.written) (pending c) _ _ v.out_eq a.pending_eq;
    errs_eq = v.errs_eq;
    out_own = a.own;
    errs_own = a.others ∙ v.errs_own;
  }

  moved_errs :
      (o : Option (Copier × Option Stream × List Text))
      → Then (AdvancedTo stderr r.errs.phase r.errs r.owner r.sent) o
      → Then (IsRelayed outs errs) (with_errs r o)
  moved_errs none a = tt
  moved_errs (some (c, owner, sent)) a = record {
    from_out = v.from_out;
    from_errs = v.from_errs ++ listed a.written;
    merged = rw a.sent_eq (written_errs a.written v.merged);
    out_eq = v.out_eq;
    errs_eq = moved v.from_errs (listed a.written) (pending c) _ _ v.errs_eq a.pending_eq;
    out_own = a.others ∙ v.out_own;
    errs_own = a.own;
  }

  relay_step-IsRelayed : (s : Stream) → Then (IsRelayed outs errs) (relay_step s r)
  unfolding relay_step copy_step
  relay_step-IsRelayed stdout =
      moved_out _ (in_phase-Advanced stdout r.out.phase r.out r.owner r.sent v.out_own)
  relay_step-IsRelayed stderr =
      moved_errs _ (in_phase-Advanced stderr r.errs.phase r.errs r.owner r.sent v.errs_own)

start_relay-IsRelayed : (outs errs : List Chunk) → IsRelayed outs errs (start_relay outs errs)
start_relay-IsRelayed outs errs = record {
  from_out = [];
  from_errs = [];
  merged = nothing;
  out_eq = refl;
  errs_eq = refl;
  out_own = refl;
  errs_own = refl;
}

Then-go_on {κ} :
    (P : Relay → Type κ) (f : Relay → Option Relay) (o : Option Relay)
    → ((r : Relay) → P r → Then P (f r))
    → Then P o
    → Then P (go_on f o)
Then-go_on P f none h p = tt
Then-go_on P f (some r) h p = h r p

run_relay-keeps :
    {outs errs : List Chunk} (ss : List Stream) (r : Relay)
    → IsRelayed outs errs r
    → Then (IsRelayed outs errs) (run_relay ss r)
unfolding run_relay
run_relay-keeps [] r v = v
run_relay-keeps {outs} {errs} (s ∷ ss) r v =
    Then-go_on (IsRelayed outs errs) (run_relay ss) (relay_step s r) (λ r'. run_relay-keeps ss r')
      (relay_step-IsRelayed v s)

pub from_then {ℓ κ} :
    {A : Type ℓ} (P : A → Type κ) (o : Option A) {a : A} → o ≡ some a → Then P o → P a
from_then P none e h = cc e
from_then P (some b) e h = subst P (some_eq_some e) h

pub run_relay-IsRelayed :
    (outs errs : List Chunk) (ss : List Stream) {r : Relay}
    → run_relay ss (start_relay outs errs) ≡ some r
    → IsRelayed outs errs r
run_relay-IsRelayed outs errs ss e =
    from_then (IsRelayed outs errs) _ e
      (run_relay-keeps ss (start_relay outs errs) (start_relay-IsRelayed outs errs))

-- However the scheduler mixes the steps of the two goroutines: the messages that the browser has been
-- sent are a merge of what was read on stdout and on stderr, in the order of each stream; what a stream
-- has not sent yet is what follows on it, up to its end; and never do both goroutines stand between Lock
-- and Unlock.
pub run_relay-Merge :
    (outs errs : List Chunk) (ss : List Stream) (r : Relay)
    → run_relay ss (start_relay outs errs) ≡ some r
    → ((os : List Text) × (es : List Text) × Merge os es r.sent
        × (os ++ pending r.out ≡ messages outs)
        × (es ++ pending r.errs ≡ messages errs))
      × ((holds r.out.phase && holds r.errs.phase) ≡ false)
run_relay-Merge outs errs ss r e =
    let v = run_relay-IsRelayed outs errs ss e in
    (
      (v.from_out, v.from_errs, v.merged, v.out_eq, v.errs_eq),
      not_both r.owner _ _ v.out_own v.errs_own,
    )
  where
    not_both :
        (o : Option Stream) (a b : Bool)
        → owned stdout o ≡ a
        → owned stderr o ≡ b
        → (a && b) ≡ false
    not_both none a b p q = rw (← p) refl
    not_both (some stdout) a b p q = rw (← p, ← q) refl
    not_both (some stderr) a b p q = rw (← p) refl
