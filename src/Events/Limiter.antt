-- ===== src/Events/Limiter.antt =====
-- pkg/ratelimiter/ratelimiter.go: two goroutines with a bounded buffer between them.
use mathlib.Core.Path.{subst}
use mathlib.Core.List.{append_assoc}
use resource_topology_export.Base.{
  ℕ, ◌≤◌, ◌<◌, ◌≡◌, refl, sym, ap, ◌∙◌, Bool, true, false, Option, none, some, List, [], ◌∷◌, ◌++◌,
  length, length-append, arith,
}

-- bufferSize
abbrev pub buffer_size : ℕ
buffer_size = 5

-- RateLimitedEventSource: the buffered channel, the event that the sender waits to write, whether
-- each goroutine runs, and, beside the program's state, all events read and written.
pub record Limiter (A : Type 0) : Type 0 where
  pub buffer : List A
  pub holding : Option A
  pub receiving : Bool
  pub sending : Bool
  pub received : List A
  pub delivered : List A

-- The state in which run starts the goroutines.
abbrev pub start : {A : Type 0} → Limiter A
start = record {
  buffer = [];
  holding = none;
  receiving = true;
  sending = true;
  received = [];
  delivered = [];
}

-- One step of receiver or of sender. When the rate lets an event pass is not said, and neither is what
-- others do: `buffers` and `drops` meet a writer of the input, `delivers` a reader of the output, and
-- `stops_receiver` and `stops_sender` the caller of stop. So every run of the program is a sequence of
-- steps, while a sequence of steps need not be one.
pub data Step {A : Type 0} : Limiter A → Limiter A → Type 0 where
  buffers :
      {s : Limiter A} (event : A)
      → s.receiving ≡ true
      → length s.buffer < buffer_size
      → Step s (record s { buffer = s.buffer ++ event ∷ []; received = s.received ++ event ∷ [] })
  drops :
      {s : Limiter A} (event : A)
      → s.receiving ≡ true
      → length s.buffer ≡ buffer_size
      → Step s (record s { received = s.received ++ event ∷ [] })
  takes :
      {s : Limiter A} (event : A) (rest : List A)
      → s.sending ≡ true
      → s.holding ≡ none
      → s.buffer ≡ event ∷ rest
      → Step s (record s { buffer = rest; holding = some event })
  delivers :
      {s : Limiter A} (event : A)
      → s.sending ≡ true
      → s.holding ≡ some event
      → Step s (record s { holding = none; delivered = s.delivered ++ event ∷ [] })
  stops_receiver : {s : Limiter A} → s.receiving ≡ true → Step s (record s { receiving = false })
  stops_sender :
      {s : Limiter A} → s.sending ≡ true → s.holding ≡ none → Step s (record s { sending = false })

pub data Steps {A : Type 0} : Limiter A → Limiter A → Type 0 where
  none_yet : {s : Limiter A} → Steps s s
  then_step : {s t u : Limiter A} → Steps s t → Step t u → Steps s u

-- The first list is the second one without some of its elements, in order.
pub data Thinned {A : Type 0} : List A → List A → Type 0 where
  empty : Thinned [] []
  keeps : {xs ys : List A} (y : A) → Thinned xs ys → Thinned (xs ++ y ∷ []) (ys ++ y ∷ [])
  skips : {xs ys : List A} (y : A) → Thinned xs ys → Thinned xs (ys ++ y ∷ [])

abbrev pub held : {A : Type 0} → Option A → List A
held none = []
held (some event) = event ∷ []

-- What is on its way or has arrived is what came in, less what was dropped; the buffer never
-- exceeds its size.
pub record IsLimited {A : Type 0} (s : Limiter A) : Type 0 where
  pub ordered : Thinned (s.delivered ++ (held s.holding ++ s.buffer)) s.received
  pub fits : length s.buffer ≤ buffer_size

module _ {A : Type 0} (xs : List A) where
  -- Steps that only move an event along keep the events and their order.
  enters :
      (held_event buffer : List A) (event : A)
      → (xs ++ (held_event ++ buffer)) ++ event ∷ [] ≡ xs ++ (held_event ++ (buffer ++ event ∷ []))
  enters held_event buffer event =
      append_assoc xs (held_event ++ buffer) (event ∷ [])
      ∙ ap (λ l. xs ++ l) (append_assoc held_event buffer (event ∷ []))

  taken :
      {holding : Option A} {buffer : List A} (event : A) (rest : List A)
      → holding ≡ none
      → buffer ≡ event ∷ rest
      → xs ++ (held holding ++ buffer) ≡ xs ++ (event ∷ rest)
  taken event rest h b = rw (h, b) refl

  arrived :
      {holding : Option A} (buffer : List A) (event : A)
      → holding ≡ some event
      → xs ++ (held holding ++ buffer) ≡ (xs ++ event ∷ []) ++ buffer
  arrived buffer event h = rw h (sym (append_assoc xs (event ∷ []) buffer))

module _ {A : Type 0} where
  Step-IsLimited : {s t : Limiter A} → Step s t → IsLimited s → IsLimited t
  Step-IsLimited (buffers {s} event r room) i = record {
    ordered =
        subst (λ l. Thinned l (s.received ++ event ∷ []))
          (enters s.delivered (held s.holding) s.buffer event) (keeps event i.ordered);
    fits = omega (arith, length-append s.buffer (event ∷ []), room);
  }
  Step-IsLimited (drops {s} event r full) i = record {
    ordered = skips event i.ordered;
    fits = i.fits;
  }
  Step-IsLimited (takes {s} event rest g h b) i = record {
    ordered = subst (λ l. Thinned l s.received) (taken s.delivered event rest h b) i.ordered;
    fits = omega (arith, ap length b, i.fits);
  }
  Step-IsLimited (delivers {s} event g h) i = record {
    ordered = subst (λ l. Thinned l s.received) (arrived s.delivered s.buffer event h) i.ordered;
    fits = i.fits;
  }
  Step-IsLimited (stops_receiver r) i = record { ordered = i.ordered; fits = i.fits }
  Step-IsLimited (stops_sender g h) i = record { ordered = i.ordered; fits = i.fits }

  -- However receiver and sender interleave, what reaches the output, followed by what waits, is the
  -- input in its order less the dropped events, and at most five events wait in the buffer.
  pub Steps-IsLimited : {s : Limiter A} → Steps start s → IsLimited s
  Steps-IsLimited none_yet = record { ordered = empty; fits = omega arith }
  Steps-IsLimited (then_step steps step) = Step-IsLimited step (Steps-IsLimited steps)

  length-Thinned : {xs ys : List A} → Thinned xs ys → length xs ≤ length ys
  length-Thinned empty = omega arith
  length-Thinned (keeps {xs} {ys} y t) =
      omega (arith, length-append xs (y ∷ []), length-append ys (y ∷ []), length-Thinned t)
  length-Thinned (skips {xs} {ys} y t) = omega (arith, length-append ys (y ∷ []), length-Thinned t)

  -- A full buffer has read at least as many events as it holds.
  buffered_lem : {s : Limiter A} → IsLimited s → length s.buffer ≤ length s.received
  buffered_lem {s} i = omega (
    arith,
    length-append s.delivered (held s.holding ++ s.buffer),
    length-append (held s.holding) s.buffer,
    length-Thinned i.ordered,
  )

  Step-first_kept :
      {s t : Limiter A}
      → Step s t
      → IsLimited s
      → (length s.received ≤ buffer_size → s.delivered ++ (held s.holding ++ s.buffer) ≡ s.received)
      → length t.received ≤ buffer_size
      → t.delivered ++ (held t.holding ++ t.buffer) ≡ t.received
  Step-first_kept (buffers {s} event r room) i k few =
      sym (enters s.delivered (held s.holding) s.buffer event)
      ∙ ap (λ l. l ++ event ∷ []) (k (omega (arith, length-append s.received (event ∷ []), few)))
  Step-first_kept (drops {s} event r full) i k few =
      absurd (omega (arith, length-append s.received (event ∷ []), few, full, buffered_lem i))
  Step-first_kept (takes {s} event rest g h b) i k few =
      sym (taken s.delivered event rest h b) ∙ k few
  Step-first_kept (delivers {s} event g h) i k few =
      sym (arrived s.delivered s.buffer event h) ∙ k few
  Step-first_kept (stops_receiver r) i k few = k few
  Step-first_kept (stops_sender g h) i k few = k few

  -- As long as at most five events were read, none is dropped: what reached the output, followed by
  -- what waits, is the input.
  pub Steps-first_kept :
      {s : Limiter A}
      → Steps start s
      → length s.received ≤ buffer_size
      → s.delivered ++ (held s.holding ++ s.buffer) ≡ s.received
  Steps-first_kept none_yet few = refl
  Steps-first_kept (then_step steps step) few =
      Step-first_kept step (Steps-IsLimited steps) (Steps-first_kept steps) few
