-- ===== src/V1/Usage.antt =====
-- `V1Store.emit_usage` (app/services/v1_store.py) and the outbox (app/services/outbox.py), whose file
-- works: an event that cannot be written to the stream is kept and sent with a later one.
use mathlib.Core.List.{Perm, append_assoc, perm_middle, perm_append_singleton}
use mathlib.Core.List.Perm
use omnibioai_api_gateway.Prelude.{
  ◌+◌, ◌≡◌, refl, Bool, true, false, List, [], ◌∷◌, ◌++◌, some, if◌then◌else◌, arith, Bool-cases,
  inl, inr,
}
use omnibioai_api_gateway.Exec.{Exec}
use omnibioai_api_gateway.V1.{World, Outside, UsageEvent}

module _ {S : Type 0} (o : Outside S) where
  -- One XADD: whether it succeeded.
  unfoldable pub xadd : UsageEvent → World S → Bool × World S
  xadd e w =
      if o.xadd_works w.attempts
      then (true, record w { attempts = w.attempts + 1; stream = w.stream ++ e ∷ [] })
      else (false, record w { attempts = w.attempts + 1 })

  -- The loop of `drain`: the events oldest first, up to the first that fails.
  unfoldable pub drain_from : List UsageEvent → World S → World S
  unfolding xadd
  drain_from [] w = record w { pending = [] }
  drain_from (e ∷ es) w =
      let (sent, w') = xadd e w in
      elim sent [ true ↦ drain_from es w' | false ↦ record w' { pending = e ∷ es } ]

  unfoldable pub drain : World S → World S
  unfolding drain_from
  drain w = drain_from w.pending w

  unfoldable pub send_or_keep : UsageEvent → World S → Bool × World S
  unfolding xadd
  send_or_keep e w =
      let (sent, w') = xadd e w in
      if sent then (true, w') else (false, record w' { pending = w'.pending ++ e ∷ [] })

  unfoldable pub emit_usage : UsageEvent → Exec (World S) Bool
  unfolding drain send_or_keep
  emit_usage e w = let (sent, w') = send_or_keep e (drain w) in (some sent, w')

  pub emit_usage_returns :
      (e : UsageEvent) (w : World S) → (sent : Bool) × ((emit_usage e w).0 ≡ some sent)
  unfolding emit_usage
  emit_usage_returns e w = (_, refl)

  -- What is written and what still waits, together.
  abbrev pub recorded : World S → List UsageEvent
  recorded w = w.stream ++ w.pending

  drain_from-recorded :
      (es : List UsageEvent) (w : World S) → recorded (drain_from es w) ≡ w.stream ++ es
  unfolding drain_from
  drain_from-recorded [] w = refl
  drain_from-recorded (e ∷ es) w = elim (Bool-cases (o.xadd_works w.attempts)) [
    | inl works ↦ ground (
      arith,
      drain_from-recorded es (record w { attempts = w.attempts + 1; stream = w.stream ++ e ∷ [] }),
      append_assoc w.stream (e ∷ []) es,
    )
    | inr fails ↦ ground arith
  ]

  send_or_keep-recorded :
      (e : UsageEvent) (w : World S) → Perm (recorded (send_or_keep e w).1) (recorded w ++ e ∷ [])
  unfolding send_or_keep
  send_or_keep-recorded e w = elim (Bool-cases (o.xadd_works w.attempts)) [
    | inl works ↦
        rw (works, append_assoc w.stream (e ∷ []) w.pending)
          (Perm.trans (perm_middle w.stream w.pending)
            (Perm.symm (perm_append_singleton e (w.stream ++ w.pending))))
    | inr fails ↦ rw (fails, append_assoc w.stream w.pending (e ∷ [])) (Perm.refl _)
  ]

  -- Whether or not the stream can be written, and whatever waits in the outbox, an emitted event and every
  -- event before it are afterwards on the stream or in the outbox, each as often as it was
  -- emitted: none is lost, and none is written twice.
  pub emit_usage-recorded :
      (e : UsageEvent) (w : World S) → Perm (recorded (emit_usage e w).1) (recorded w ++ e ∷ [])
  unfolding emit_usage
  emit_usage-recorded e w =
      let kept : recorded (drain w) ≡ recorded w =
        unfold drain in drain_from-recorded w.pending w in
      rw kept at (send_or_keep-recorded e (drain w))

  drain_from-store : (es : List UsageEvent) (w : World S) → (drain_from es w).store ≡ w.store
  unfolding drain_from
  drain_from-store [] w = refl
  drain_from-store (e ∷ es) w = ground (
    arith,
    drain_from-store es (record w { attempts = w.attempts + 1; stream = w.stream ++ e ∷ [] }),
  )

  -- The counters, limits and claims are no matter of the usage events.
  pub emit_usage-store : (e : UsageEvent) (w : World S) → (emit_usage e w).1.store ≡ w.store
  unfolding emit_usage send_or_keep drain
  emit_usage-store e w =
      let kept = drain_from-store w.pending w in
      elim (Bool-cases (o.xadd_works (drain_from w.pending w).attempts)) [
        | inl works ↦ rw (works, kept)
        | inr fails ↦ rw (fails, kept)
      ]
