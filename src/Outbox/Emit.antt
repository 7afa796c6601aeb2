-- ===== src/Outbox/Emit.antt =====
-- `V1Store.emit_usage` of app/services/v1_store.py on an outbox whose file may fail at any use.
use mathlib.Core.List.{Perm, append_assoc, append-nil, map-append, perm_append_comm}
use mathlib.Core.List.Perm
use omnibioai_api_gateway.Prelude.{
  ℕ, ◌+◌, ◌≡◌, refl, sym, ap, ◌∙◌, inl, inr, ◌⊎◌, Bool, true, false, some, List, [], ◌∷◌, ◌++◌, map,
  Bool-cases, if◌then◌else◌,
}
use omnibioai_api_gateway.V1.{World, Outside, UsageEvent}
use omnibioai_api_gateway.V1.Usage.{xadd, send_or_keep, emit_usage}
use omnibioai_api_gateway.Outbox.{Row, Store, write, drain, is_ok}
use omnibioai_api_gateway.Outbox.Usage.{
  always, with_pending, drain-Usage, flush_usage, xadd_works, xadd_fails,
}
use omnibioai_api_gateway.Outbox.Delivery.{
  IsOrdered, Sent, end_of, failed, sent, drain-Drained, write_working, write_broken,
  insert-IsOrdered,
}

module _ {S : Type 0} (o : Outside S) where
  abbrev pub File : Type 0
  File = Store UsageEvent (World S)

  abbrev pub waiting : File → List UsageEvent
  waiting s = map (λ r. r.event) s.rows

  -- What is on the stream and what waits in the file.
  abbrev pub kept : File → List UsageEvent
  kept s = s.world.stream ++ waiting s

  module _ (works : ℕ → Bool) where
    -- The end of `emit_usage`: the event is written to the stream or else to the file.
    send_or_write : UsageEvent → File → Bool × File
    send_or_write e s =
        let (on_stream, w) = xadd o e s.world in
        if on_stream
        then (true, record s { world = w })
        else (false, write works e (record s { world = w }))

    pub emit_on_file : UsageEvent → File → Bool × File
    unfolding send_or_write
    emit_on_file e s = send_or_write e (drain works (flush_usage o) s).1

  flush_stream :
      (e : UsageEvent) (w : World S)
      → (flush_usage o e w).1.stream
        ≡ w.stream ++ (if is_ok (flush_usage o e w).0 then e ∷ [] else [])
  unfolding xadd
  flush_stream e w = elim (Bool-cases (o.xadd_works w.attempts)) [
    | inl works ↦ rw works
    | inr fails ↦ rw (fails, append-nil w.stream)
  ]

  -- Flushing with success is writing to the stream.
  Sent-stream :
      (es : List UsageEvent) (w w' : World S)
      → Sent (flush_usage o) es w w'
      → w'.stream ≡ w.stream ++ es
  Sent-stream _ _ _ (end_of w) = sym (append-nil w.stream)
  Sent-stream _ _ _ (failed e w refused) = flush_stream e w ∙ rw refused
  Sent-stream _ _ _ (sent e es w w' ok rest) =
      Sent-stream es (flush_usage o e w).1 w' rest
      ∙ ap (λ l. l ++ es) (flush_stream e w ∙ rw ok)
      ∙ append_assoc w.stream (e ∷ []) es

  -- What a drain leaves: all that there was, and at most one event of the file twice.
  record Swept (s s' : File) : Type 0 where
    again : List UsageEvent
    at_most_one :
        (again ≡ [])
        ⊎ ((x : UsageEvent) × (l m : List UsageEvent) × (waiting s ≡ l ++ x ∷ m) × (again ≡ x ∷ []))
    all : Perm (kept s') (kept s ++ again)
    ordered : IsOrdered s'.rows s'.next_id

  flat : (a b c d : List UsageEvent) → (a ++ (b ++ c)) ++ d ≡ (a ++ b) ++ (c ++ d)
  flat a b c d = ap (λ l. l ++ d) (sym (append_assoc a b c)) ∙ append_assoc (a ++ b) c d

  swap_ends : (a b c d : List UsageEvent) → Perm ((a ++ (b ++ c)) ++ d) ((a ++ (b ++ d)) ++ c)
  swap_ends a b c d =
      rw (flat a b c d, flat a b d c) (Perm.append (Perm.refl (a ++ b)) (perm_append_comm c d))

  drain-Swept :
      (works : ℕ → Bool) (s : File)
      → IsOrdered s.rows s.next_id
      → Swept s (drain works (flush_usage o) s).1
  drain-Swept works s h =
      let d = drain-Drained (flush_usage o) works s h in
      let s' = (drain works (flush_usage o) s).1 in
      let gone = map (λ r. r.event) d.gone in
      let again = map (λ r. r.event) d.again in
      let split : waiting s ≡ gone ++ waiting s' =
        ap (map (λ r. r.event)) d.split ∙ map-append (λ r. r.event) d.gone s'.rows in
      let stream : s'.world.stream ≡ s.world.stream ++ (gone ++ again) =
        Sent-stream _ s.world s'.world d.calls
        ∙ ap (λ l. s.world.stream ++ l) (map-append (λ r. r.event) d.gone d.again) in
      record {
        again = again;
        at_most_one = elim d.tail [
          | inl nothing ↦ inl (ap (map (λ r. r.event)) nothing)
          | inr (r, rs, left, twice) ↦ inr (
            r.event,
            gone,
            map (λ q. q.event) rs,
            split ∙ ap (λ l. gone ++ map (λ q. q.event) l) left,
            ap (map (λ q. q.event)) twice,
          )
        ];
        all = rw (stream, split) (swap_ends s.world.stream gone again (waiting s'));
        ordered = d.ordered;
      }

  -- Neither the attempt to write to the stream that comes next, nor the use of the file that comes next,
  -- succeeds, and `false` is returned.
  abbrev pub IsLost : (ℕ → Bool) → File → Bool → Type 0
  IsLost works t told =
      (told ≡ false) × (o.xadd_works t.world.attempts ≡ false) × (works t.uses ≡ false)

  -- What comes of one emitted event, on whatever file.
  pub record Emitted (works : ℕ → Bool) (e : UsageEvent) (s : File) (x : Bool × File) : Type 0 where
    pub again : List UsageEvent
    pub at_most_one :
        (again ≡ [])
        ⊎ ((y : UsageEvent) × (l m : List UsageEvent) × (waiting s ≡ l ++ y ∷ m) × (again ≡ y ∷ []))
    pub all :
        Perm (kept x.1) ((kept s ++ again) ++ e ∷ [])
        ⊎ (IsLost works (drain works (flush_usage o) s).1 x.0 × Perm (kept x.1) (kept s ++ again))
    pub ordered : IsOrdered x.1.rows x.1.next_id

  module _ (works : ℕ → Bool) (e : UsageEvent) where
    -- The event is added, or its writing to the stream and to the file both fail.
    abbrev Added : File → Bool × File → Type 0
    Added t x = Perm (kept x.1) (kept t ++ e ∷ []) ⊎ (IsLost works t x.0 × (kept x.1 ≡ kept t))

    abbrev counted : World S → World S
    counted w = record w { attempts = w.attempts + 1 }

    send_or_write-Added :
        (t : File)
        → IsOrdered t.rows t.next_id
        → Added t (send_or_write works e t)
          × IsOrdered (send_or_write works e t).1.rows (send_or_write works e t).1.next_id
    unfolding send_or_write
    send_or_write-Added t h = elim (Bool-cases (o.xadd_works t.world.attempts)) [
      | inl sending ↦ rw (xadd_works o e t.world sending) (
        inl (
            rw
              (
                append_assoc t.world.stream (e ∷ []) (waiting t),
                append_assoc t.world.stream (waiting t) (e ∷ []),
              )
              (Perm.append (Perm.refl t.world.stream) (perm_append_comm (e ∷ []) (waiting t)))),
        h,
      )
      | inr refused ↦
          let t' : File = record t { world = counted t.world } in
          elim (Bool-cases (works t.uses)) [
            | inl working ↦
                rw
                  (
                    xadd_fails o e t.world refused,
                    write_working works e t' working,
                    map-append (λ (r : Row UsageEvent). r.event) t.rows
                        (record { id = t.next_id; event = e } ∷ []),
                    append_assoc t.world.stream (waiting t) (e ∷ []),
                  )
                  (inl (Perm.refl _), insert-IsOrdered t.rows t.next_id e h)
            | inr broken ↦
                rw (xadd_fails o e t.world refused, write_broken works e t' broken)
                  (inr ((refl, refused, broken), refl), h)
          ]
    ]

    -- On an outbox file that may fail at any use, and whose ids grow, an event is emitted. What was on the stream
    -- and in the file, and the event, are afterwards on the stream or in the file, at most one
    -- event of the file twice. Only where, after the waiting events were tried, both the XADD of the
    -- event and the very use of the file that is to keep it fail is the event lost, and it
    -- alone, and then `emit_usage` returns False. The ids of the file still grow.
    pub emit_on_file-Emitted :
        (s : File) → IsOrdered s.rows s.next_id → Emitted works e s (emit_on_file works e s)
    unfolding emit_on_file
    emit_on_file-Emitted s h =
        let swept = drain-Swept works s h in
        let t = (drain works (flush_usage o) s).1 in
        let (added, ordered) = send_or_write-Added t swept.ordered in
        record {
          again = swept.again;
          at_most_one = swept.at_most_one;
          all = elim added [
            | inl there ↦ inl (Perm.trans there (Perm.append swept.all (Perm.refl (e ∷ []))))
            | inr (lost, same) ↦ inr (lost, rw same swept.all)
          ];
          ordered = ordered;
        }

  send_or_write-send_or_keep :
      (e : UsageEvent) (t : File)
      → send_or_keep o e (with_pending o t)
        ≡ ((send_or_write always e t).0, with_pending o (send_or_write always e t).1)
  unfolding send_or_write send_or_keep xadd write
  send_or_write-send_or_keep e t = elim (Bool-cases (o.xadd_works t.world.attempts)) [
    | inl sending ↦ rw sending
    | inr refused ↦ rw (refused, map-append (λ (r : Row UsageEvent). r.event) t.rows)
  ]

  -- On a file that works, and that holds the events that wait, `emit_usage` with the outbox is the one that the
  -- public API is modelled with: the same return value, the same stream, and the same events wait.
  pub emit_on_file-Usage :
      (e : UsageEvent) (s : File)
      → IsOrdered s.rows s.next_id
      → s.world.pending ≡ waiting s
      → emit_usage o e s.world
        ≡ (some (emit_on_file always e s).0, with_pending o (emit_on_file always e s).1)
  unfolding emit_usage emit_on_file
  emit_on_file-Usage e s h same =
      ap (λ w. (some (send_or_keep o e w).0, (send_or_keep o e w).1)) (sym (drain-Usage o s h same))
      ∙ ap (λ (x : Bool × World S). (some x.0, x.1))
          (send_or_write-send_or_keep e (drain always (flush_usage o) s).1)
