-- ===== src/Cmd/Terminal/Reach.antt =====
-- When a browser gets a shell: wsHandler of cmd/serve.go.
use onfire.Prelude.{
  ◌≢◌, sym, [], ◌∷◌, ◌++◌, some_eq_some, ltb→lt, lt→ltb, subst, ap, ==_iff, ◌==◌, ℕ, zero, suc, ◌+◌,
  ◌≤◌, ◌<◌, ◌≡◌, ◌↔◌, refl, List, Bool, true, false, Option, none, some, Bool-cases, inl, inr,
  arith, ltb,
}
use onfire.Prelude.Int.{ℤ, pos, negsuc}
use onfire.Prelude.Text.{Text, codes, decimal, text_eq, text_eq_iff}
use onfire.Prelude.Numerals.{atoi}
use onfire.Cmd.Terminal.{
  dial, Session, Incoming, raw, json_object, Sent, typed, window, forward, ssh_addr, ws_closed,
  in_session, ws_handler, in_fleet, ws_vm,
}

later_dial : (dials : ℕ → Bool) (a i : ℕ) → dials a ≡ false → a ≤ i → dials i ≡ true → a + 1 ≤ i
later_dial dials a i f le h = elim (Bool-cases (a == i)) [
  | inl t ↦ absurd (cc (f, h, ap dials ((==_iff a i).0 t)))
  | inr n ↦ ground arith
]

dial_iff :
    (dials : ℕ → Bool) (n a : ℕ)
    → ((dial dials a n).1 ≡ true) ↔ ((i : ℕ) × (a ≤ i) × (i < a + n) × (dials i ≡ true))
unfolding dial
dial_iff dials zero a = ((λ e. cc e), λ (i, le, lt, h). absurd (omega arith))
dial_iff dials (suc n) a = elim (Bool-cases (dials a)) [
  | inl t ↦ simp t ((λ e. (a, omega arith, omega arith, t)), λ h. refl)
  | inr f ↦
      let (there, back) = dial_iff dials n (a + 1) in
      simp f (
        (λ e. let (i, le, lt, h) = there e in (i, omega arith, omega arith, h)),
        λ (i, le, lt, h). back (i, later_dial dials a i f le h, omega arith, h),
      )
]

abbrev pub HasShell : Session → Type 0
HasShell s =
    (s.opens ≡ true)
    × (s.pty ≡ true)
    × (s.stdin ≡ true)
    × (s.stdout ≡ true)
    × (s.stderr ≡ true)
    × (s.shell ≡ true)

-- What the messages of a browser come to: other data is typed as it is, a map of type resize sets the
-- size of the window, and every other map is dropped.
pub data IsForwarded : List Incoming → List Sent → Type 0 where
  gone : IsForwarded [] []
  types :
      {ms : List Incoming} {out : List Sent} (s : Text)
      → IsForwarded ms out
      → IsForwarded (raw s ∷ ms) (typed s ∷ out)
  resizes :
      {ms : List Incoming} {out : List Sent} (cols rows : ℤ)
      → IsForwarded ms out
      → IsForwarded (json_object (codes "resize") cols rows ∷ ms) (window rows cols ∷ out)
  drops :
      {ms : List Incoming} {out : List Sent} (kind : Text) (cols rows : ℤ)
      → kind ≢ codes "resize"
      → IsForwarded ms out
      → IsForwarded (json_object kind cols rows ∷ ms) out

forward-IsForwarded : (ms : List Incoming) → IsForwarded ms (forward ms)
unfolding forward
forward-IsForwarded [] = gone
forward-IsForwarded (raw s ∷ ms) = types s (forward-IsForwarded ms)
forward-IsForwarded (json_object kind cols rows ∷ ms) =
    elim (Bool-cases (text_eq kind (codes "resize"))) [
      | inl t ↦
          let same = (text_eq_iff kind (codes "resize")).0 t in
          rw t (
            subst (λ k. IsForwarded (json_object k cols rows ∷ ms) (window rows cols ∷ forward ms))
              (sym same) (resizes cols rows (forward-IsForwarded ms)))
      | inr f ↦ rw f (
          drops kind cols rows (λ e. cc (f, (text_eq_iff kind (codes "resize")).1 e))
            (forward-IsForwarded ms))
    ]

in_session-HasShell :
    (s : Session) (ms : List Incoming) → HasShell s → in_session s ms ≡ ws_closed (forward ms)
in_session-HasShell s ms h = ground arith

HasShell-in_session :
    (s : Session) (ms : List Incoming) (out : List Sent)
    → in_session s ms ≡ ws_closed out
    → HasShell s
HasShell-in_session s ms out h = ground arith

in_fleet_iff :
    (count : ℕ) (o : Option ℤ) (vm : ℕ)
    → (in_fleet count o ≡ some vm) ↔ ((o ≡ some (pos vm)) × (vm < count))
in_fleet_iff count none vm = ((λ h. cc h), λ h. cc h.0)
in_fleet_iff count (some (negsuc n)) vm = ((λ h. cc h), λ h. cc h.0)
in_fleet_iff count (some (pos n)) vm = elim (Bool-cases (ltb n count)) [
  | inl t ↦ rw t (
    (λ h.
        let same = some_eq_some h in
        (ap (λ k. some (pos k)) same, subst (λ k. k < count) same (ltb→lt n count t))),
    λ h. cc h.0,
  )
  | inr f ↦ rw f (
    (λ h. cc h),
    λ h. let same : n ≡ vm = cc h.0 in cc (f, lt→ltb n count (omega (arith, same, h.1))),
  )
]

pub ws_vm_iff :
    (count : ℕ) (query : Text) (vm : ℕ)
    → (ws_vm count query ≡ some vm) ↔ ((atoi query ≡ some (pos vm)) × (vm < count))
unfolding ws_vm
ws_vm_iff count query vm = in_fleet_iff count (atoi query) vm

-- A browser that asks for a VM gets a shell on it exactly when one of ten dials of the address
-- 172.16.vm.2:22 succeeds and then each call that sets the session up. Until the browser is gone, what
-- it sends comes to the VM in order: data that is no JSON object as it is, and an object of type resize
-- as the size of the window; every other object is dropped. The VM is one of the fleet: its ID is
-- below the count.
pub ws_handler_iff :
    (count : ℕ) (query : Text) (vm : ℕ) (dials : Text → ℕ → Bool) (s : Session) (ms : List Incoming)
    → ws_vm count query ≡ some vm
    → (vm < count)
      × (atoi query ≡ some (pos vm))
      × (((out : List Sent) × (ws_handler dials vm s ms ≡ ws_closed out) × IsForwarded ms out) ↔ (
          ((i : ℕ) × (i < 10) × (dials (codes "172.16." ++ (decimal vm ++ codes ".2:22")) i ≡ true))
          × HasShell s))
unfolding ws_handler
ws_handler_iff count query vm dials s ms h =
    let (read, small) = (ws_vm_iff count query vm).0 h in
    let at = dials (ssh_addr vm) in
    let (there, back) = dial_iff at 10 0 in
    (
      small,
      read,
      elim (Bool-cases (dial at 0 10).1) [
        | inl t ↦
            let (i, le, lt, on) = there t in
            simp t (
              (λ (out, e, f). ((i, omega arith, on), HasShell-in_session s ms out e)),
              λ p. (forward ms, in_session-HasShell s ms p.1, forward-IsForwarded ms),
            )
        | inr f ↦ simp f (
          (λ (out, e, g). cc e),
          λ p. cc (f, back (p.0.0, omega arith, omega (arith, p.0.1), p.0.2)),
        )
      ],
    )
