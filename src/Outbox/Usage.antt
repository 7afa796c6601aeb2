-- ===== src/Outbox/Usage.antt =====
-- The drain that `emit_usage` is modelled with (V1/Usage) against the outbox on a file that works.
use omnibioai_api_gateway.Prelude.{
  ℕ, ◌+◌, ◌≡◌, refl, sym, ap, ◌∙◌, inl, inr, Bool, true, false, some, List, [], ◌∷◌, ◌++◌, map,
  Bool-cases,
}
use omnibioai_api_gateway.Exec.{Exec}
use omnibioai_api_gateway.V1.{World, Outside, UsageEvent}
use omnibioai_api_gateway.V1.Usage.{xadd, drain_from, drain as usage_drain}
use omnibioai_api_gateway.Outbox.{Row, Store, delete_row, try_flush, drain_rows, drain}
use omnibioai_api_gateway.Outbox.Delivery.{IsOrdered, delete_row-first}

abbrev pub always : ℕ → Bool
always n = true

module _ {S : Type 0} (o : Outside S) where
  -- `_xadd_usage_event` as the callback of `drain`
  abbrev pub flush_usage : UsageEvent → Exec (World S) Bool
  flush_usage e w = let (sent, w') = xadd o e w in (some sent, w')

  -- The world with the events that wait in the file.
  abbrev pub with_pending : Store UsageEvent (World S) → World S
  with_pending s = record s.world { pending = map (λ r. r.event) s.rows }

  pub xadd_works :
      (e : UsageEvent) (w : World S)
      → o.xadd_works w.attempts ≡ true
      → xadd o e w ≡ (true, record w { attempts = w.attempts + 1; stream = w.stream ++ e ∷ [] })
  unfolding xadd
  xadd_works e w h = rw (xadd, h)

  pub xadd_fails :
      (e : UsageEvent) (w : World S)
      → o.xadd_works w.attempts ≡ false
      → xadd o e w ≡ (false, record w { attempts = w.attempts + 1 })
  unfolding xadd
  xadd_fails e w h = rw (xadd, h)

  drain_from-sent :
      (e : UsageEvent) (es : List UsageEvent) (w : World S)
      → o.xadd_works w.attempts ≡ true
      → drain_from o (e ∷ es) w
        ≡ drain_from o es (record w { attempts = w.attempts + 1; stream = w.stream ++ e ∷ [] })
  unfolding drain_from
  drain_from-sent e es w h =
      rw (drain_from, xadd_works e w h) (ap (λ r. drain_from o es r.1) (xadd_works e w h))

  drain_from-kept :
      (e : UsageEvent) (es : List UsageEvent) (w : World S)
      → o.xadd_works w.attempts ≡ false
      → drain_from o (e ∷ es) w ≡ record w { attempts = w.attempts + 1; pending = e ∷ es }
  unfolding drain_from
  drain_from-kept e es w h =
      rw (drain_from, xadd_fails e w h)
        (ap (λ (r : Bool × World S). record r.1 { pending = e ∷ es }) (xadd_fails e w h))

  drain_rows-drain_from :
      (rows : List (Row UsageEvent)) (flushed : ℕ) (s : Store UsageEvent (World S))
      → s.rows ≡ rows
      → IsOrdered rows s.next_id
      → with_pending (drain_rows always flush_usage rows flushed s).1
        ≡ drain_from o (map (λ r. r.event) rows) s.world
  unfolding drain_rows try_flush xadd
  drain_rows-drain_from [] flushed s same h = unfold drain_from in rw same
  drain_rows-drain_from (r ∷ rs) flushed s same h =
      elim (Bool-cases (o.xadd_works s.world.attempts)) [
        | inr fails ↦
            rw (drain_from-kept r.event (map (λ q. q.event) rs) s.world fails, fails, same)
        | inl works ↦
            let after : Store UsageEvent (World S) = record s {
              rows = delete_row r.id s.rows;
              uses = s.uses + 1;
              world = record s.world {
                attempts = s.world.attempts + 1;
                stream = s.world.stream ++ r.event ∷ [];
              };
            } in
            let first : delete_row r.id s.rows ≡ rs =
              ap (delete_row r.id) same ∙ delete_row-first r rs h.0 in
            rw (drain_from-sent r.event (map (λ q. q.event) rs) s.world works, works)
              (drain_rows-drain_from rs (flushed + 1) after first h.2)
      ]

  -- On a file that works, and that holds the events that wait, the drain of `emit_usage` is that of the outbox
  -- with `_xadd_usage_event` as its callback: what is then on the stream and what waits are the same.
  pub drain-Usage :
      (s : Store UsageEvent (World S))
      → IsOrdered s.rows s.next_id
      → s.world.pending ≡ map (λ r. r.event) s.rows
      → with_pending (drain always flush_usage s).1 ≡ usage_drain o s.world
  unfolding drain usage_drain
  drain-Usage s h waiting =
      drain_rows-drain_from s.rows 0 (record s { uses = s.uses + 1 }) refl h
      ∙ ap (λ es. drain_from o es s.world) (sym waiting)
