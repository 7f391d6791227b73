-- ===== src/Examples/Streams.antt =====
-- The output of a shell, and the end of a server, at small inputs.
use onfire.Prelude.{
  ◌+◌, ◌<◌, ◌≡◌, ◌⊎◌, refl, List, [], ◌∷◌, ◌++◌, true, false, ◌&&◌, some, none, length,
}
use onfire.Prelude.Text.{Text, codes}
use onfire.Cmd.Relay.{
  Chunk, Stream, stdout, stderr, Phase, unlocking, Relay, run_relay, start_relay,
}
use onfire.Cmd.Relay.Order.{Merge, messages, pending, holds, run_relay-Merge}
use onfire.Cmd.Relay.Progress.{Steps, steps_of, run_relay_progress}
use onfire.Cmd.Process.{process_run, start_process}
use onfire.Cmd.Process.Exits.{begin_requests, cut_off, exits_with_requests}

-- "ab" and then the end on stdout, "!" with the end on stderr. The rest of a buffer is what was there.
abbrev outs : List Chunk
outs =
    record { buffer = codes "abxy"; count = 2; failed = false }
    ∷ record { buffer = codes "abxy"; count = 0; failed = true }
    ∷ []

abbrev errs : List Chunk
errs = record { buffer = codes "!"; count = 1; failed = true } ∷ []

-- stderr is read while stdout holds the mutex.
abbrev turns : List Stream
turns = stdout ∷ stdout ∷ stderr ∷ stdout ∷ stdout ∷ stderr ∷ stderr ∷ []

abbrev halfway : Relay
halfway = record {
  out = record {
    buf = codes "abxy";
    phase = Phase.reading;
    input = record { buffer = codes "abxy"; count = 0; failed = true } ∷ [];
  };
  errs = record { buf = codes "!"; phase = unlocking true; input = [] };
  owner = some stderr;
  sent = codes "ab" ∷ codes "!" ∷ [];
}

halfway_reached : run_relay turns (start_relay outs errs) ≡ some halfway
unfolding run_relay
halfway_reached = refl

run_relay-Merge_example :
    ((os : List Text) × (es : List Text) × Merge os es halfway.sent
      × (os ++ pending halfway.out ≡ messages outs)
      × (es ++ pending halfway.errs ≡ messages errs))
    × ((holds halfway.out.phase && holds halfway.errs.phase) ≡ false)
run_relay-Merge_example = run_relay-Merge outs errs turns halfway halfway_reached

run_relay_progress_example :
    (length turns < steps_of outs + steps_of errs × Steps halfway)
    ⊎ ((length turns ≡ steps_of outs + steps_of errs)
        × Merge (messages outs) (messages errs) halfway.sent)
run_relay_progress_example = run_relay_progress outs errs turns halfway halfway_reached

nine_steps : steps_of outs + steps_of errs ≡ 9
unfolding steps_of
nine_steps = refl

-- stderr waits for stdout.
blocked : run_relay (stdout ∷ stdout ∷ stderr ∷ stderr ∷ []) (start_relay outs errs) ≡ none
unfolding run_relay
blocked = refl

exits_with_requests_example : process_run (begin_requests 3) (start_process true) ≡ cut_off 3 true
exits_with_requests_example = exits_with_requests true 3
