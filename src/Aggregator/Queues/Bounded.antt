-- ===== src/Aggregator/Queues/Bounded.antt =====
-- src/nccl_stats_aggregator.cc: the queues with their counters implement two bounded lists.
use gpuviz.Base.{
  ℕ, ◌+◌, ◌≤◌, ◌<◌, ◌≡◌, ◌∙◌, refl, sym, ap, ap₂, Bool, leb, Option, none, some, List, [], ◌∷◌,
  ◌++◌, length, All, if◌then◌else◌, Bool-cases, Option-cases, inl, inr, arith, leb→le,
}
use gpuviz.Base.Words.{add_u64, u64_mod}
use gpuviz.Base.Faults.{ok, data_loss}
use gpuviz.Aggregator.Queues.{
  empty_queues, EventQueues, add_log_msg, add_event, read_logs, parse_events, read_queues, Call,
  log, event, read, Reply, logged, answered, reported, call, calls,
}

abbrev pub sum_of {ℓ} : {A : Type ℓ} → (A → ℕ) → List A → ℕ
sum_of size [] = 0
sum_of size (x ∷ xs) = size x + sum_of size xs

sum_of-snoc {ℓ} :
    {A : Type ℓ} (size : A → ℕ) (xs : List A) (x : A)
    → sum_of size (xs ++ (x ∷ [])) ≡ sum_of size xs + size x
sum_of-snoc size [] x = omega arith
sum_of-snoc size (y ∷ ys) x = omega (arith, sum_of-snoc size ys x)

-- The abstract view: two lists, each of at most `cap` bytes, with no counters and no wrap-around.
pub record Lists (L : Type 0) : Type 0 where
  pub logs : List L
  pub events : List (List ℕ)

module _ {A : Type 0} where
  -- An entry is accepted if the list then takes at most `cap` bytes.
  abbrev pub accepts : (A → ℕ) → ℕ → A → List A → Bool
  accepts size cap x xs = leb (sum_of size xs + size x) cap

  abbrev pub push : (A → ℕ) → ℕ → A → List A → List A
  push size cap x xs = if accepts size cap x xs then xs ++ (x ∷ []) else xs

  abbrev pub parsed : {E : Type 0} → (A → Option E) → List A → List E
  parsed parse [] = []
  parsed parse (x ∷ xs) = elim (parse x) [ none ↦ parsed parse xs | some e ↦ e ∷ parsed parse xs ]

module _ {L : Type 0} (space_used : L → ℕ) (cap : ℕ) where
  -- The counters are the sums of the sizes, and within the cap.
  pub record Represents (q : EventQueues L) (s : Lists L) : Type 0 where
    pub logs : q.log_messages ≡ s.logs
    pub events : q.events ≡ s.events
    pub logs_size : q.log_messages_size ≡ sum_of space_used s.logs
    pub events_size : q.events_size ≡ sum_of length s.events
    pub logs_fit : sum_of space_used s.logs ≤ cap
    pub events_fit : sum_of length s.events ≤ cap
    pub same_cap : q.non_aggregated_data_size_cap ≡ cap

  -- Entries so large that a counter would wrap around are left out.
  abbrev pub Fits : Call L → Type 0
  Fits (log entry) = cap + space_used entry < u64_mod
  Fits (event e) = cap + length e < u64_mod
  Fits read = Unit {0}

  -- The queues start out empty.
  pub empty_queues-Represents : Represents (empty_queues cap) (record { logs = []; events = [] })
  unfolding empty_queues
  empty_queues-Represents = record {
    logs = refl;
    events = refl;
    logs_size = refl;
    events_size = refl;
    logs_fit = omega arith;
    events_fit = omega arith;
    same_cap = refl;
  }

  add_log_msg-Represents :
      (entry : L) (q : EventQueues L) (s : Lists L)
      → cap + space_used entry < u64_mod
      → Represents q s
      → Represents
          (add_log_msg space_used entry q)
          (record s { logs = push space_used cap entry s.logs })
  unfolding add_log_msg
  add_log_msg-Represents entry q s h r =
      let size : add_u64 q.log_messages_size (space_used entry)
          ≡ sum_of space_used s.logs + space_used entry =
        omega (arith, r.logs_size, r.logs_fit) in
      elim (Bool-cases (accepts space_used cap entry s.logs)) [
        | inl e ↦
            rw (size, r.same_cap, e)
              (record {
                logs = ap (λ l. l ++ (entry ∷ [])) r.logs;
                events = r.events;
                logs_size = sym (sum_of-snoc space_used s.logs entry);
                events_size = r.events_size;
                logs_fit = omega (arith, sum_of-snoc space_used s.logs entry, leb→le _ _ e);
                events_fit = r.events_fit;
                same_cap = refl;
              })
        | inr e ↦
            rw (size, r.same_cap, e)
              (record {
                logs = r.logs;
                events = r.events;
                logs_size = r.logs_size;
                events_size = r.events_size;
                logs_fit = r.logs_fit;
                events_fit = r.events_fit;
                same_cap = refl;
              })
      ]

  add_event-Represents :
      (x : List ℕ) (q : EventQueues L) (s : Lists L)
      → cap + length x < u64_mod
      → Represents q s
      → ((add_event x q).0 ≡ (if accepts length cap x s.events then ok else data_loss))
        × Represents (add_event x q).1 (record s { events = push length cap x s.events })
  unfolding add_event
  add_event-Represents x q s h r =
      let size : add_u64 q.events_size (length x) ≡ sum_of length s.events + length x =
        omega (arith, r.events_size, r.events_fit) in
      elim (Bool-cases (accepts length cap x s.events)) [
        | inl e ↦
            rw (size, r.same_cap, e)
              (
                refl,
                record {
                  logs = r.logs;
                  events = ap (λ l. l ++ (x ∷ [])) r.events;
                  logs_size = r.logs_size;
                  events_size = sym (sum_of-snoc length s.events x);
                  logs_fit = r.logs_fit;
                  events_fit = omega (arith, sum_of-snoc length s.events x, leb→le _ _ e);
                  same_cap = refl;
                },
              )
        | inr e ↦
            rw (size, r.same_cap, e)
              (
                refl,
                record {
                  logs = r.logs;
                  events = r.events;
                  logs_size = r.logs_size;
                  events_size = r.events_size;
                  logs_fit = r.logs_fit;
                  events_fit = r.events_fit;
                  same_cap = refl;
                },
              )
      ]

module _ {L E : Type 0} (space_used : L → ℕ) (parse : List ℕ → Option E) (failed : L)
    (cap : ℕ) where
  -- The log messages for the events that cannot be parsed.
  abbrev complain : List (List ℕ) → List L → List L
  complain [] logs = logs
  complain (e ∷ es) logs = elim (parse e) [
    | none ↦ complain es (push space_used cap failed logs)
    | some _ ↦ complain es logs
  ]

  -- A read takes everything, and leaves the complaints.
  pub spec_call : Call L → Lists L → Reply L E × Lists L
  spec_call (log entry) s = (logged, record s { logs = push space_used cap entry s.logs })
  spec_call (event e) s = (
    answered (if accepts length cap e s.events then ok else data_loss),
    record s { events = push length cap e s.events },
  )
  spec_call read s =
      (reported s.logs (parsed parse s.events), record { logs = complain s.events []; events = [] })

  pub spec_calls : List (Call L) → Lists L → List (Reply L E) × Lists L
  spec_calls [] s = ([], s)
  spec_calls (c ∷ cs) s =
      let (r, s1) = spec_call c s in let (rs, s2) = spec_calls cs s1 in (r ∷ rs, s2)

  parse_events-Represents :
      (es : List (List ℕ)) (q : EventQueues L) (s : Lists L)
      → cap + space_used failed < u64_mod
      → Represents space_used cap q s
      → ((parse_events space_used parse failed es q).0 ≡ parsed parse es)
        × Represents space_used cap
            (parse_events space_used parse failed es q).1
            (record s { logs = complain es s.logs })
  unfolding parse_events
  parse_events-Represents [] q s h r = (refl, r)
  parse_events-Represents (e ∷ es) q s h r = elim (Option-cases (parse e)) [
    | inl n ↦
        rw (n, parse_events, parsed, complain)
          (parse_events-Represents es (add_log_msg space_used failed q)
            (record s { logs = push space_used cap failed s.logs }) h
            (add_log_msg-Represents space_used cap failed q s h r))
    | inr (x, y) ↦
        (let (p, t) = parse_events-Represents es q s h r in
          rw (y, parse_events, parsed, complain) (ap (λ l. x ∷ l) p, t))
  ]

  call-Represents :
      (c : Call L) (q : EventQueues L) (s : Lists L)
      → cap + space_used failed < u64_mod
      → Fits space_used cap c
      → Represents space_used cap q s
      → ((call space_used parse failed c q).0 ≡ (spec_call c s).0)
        × Represents space_used cap (call space_used parse failed c q).1 (spec_call c s).1
  unfolding call spec_call read_queues read_logs
  call-Represents (log entry) q s h f r =
      (refl, add_log_msg-Represents space_used cap entry q s f r)
  call-Represents (event e) q s h f r =
      let (a, t) = add_event-Represents space_used cap e q s f r in (ap answered a, t)
  call-Represents read q s h f r =
      let q2 : EventQueues L = record q {
        log_messages = [];
        log_messages_size = 0;
        events = [];
        events_size = 0;
      } in
      let s2 : Lists L = record { logs = []; events = [] } in
      let start : Represents space_used cap q2 s2 = record {
        logs = refl;
        events = refl;
        logs_size = refl;
        events_size = refl;
        logs_fit = omega arith;
        events_fit = omega arith;
        same_cap = r.same_cap;
      } in
      let (p, t) = parse_events-Represents q.events q2 s2 h start in
      (ap₂ reported r.logs (p ∙ ap (parsed parse) r.events), rw (sym r.events) t)

  -- Whatever is called, and in any order, a caller sees what two lists of bounded size would show:
  -- an entry is taken, at the end, if the list then takes no more bytes than the cap, and an event
  -- that is not is answered with a data loss; a read reports, in order, all entries since the last
  -- one, but for the events that cannot be parsed, for which it leaves log messages. The counters
  -- keep to the cap.
  pub calls-Represents :
      (cs : List (Call L)) (q : EventQueues L) (s : Lists L)
      → cap + space_used failed < u64_mod
      → All (Fits space_used cap) cs
      → Represents space_used cap q s
      → ((calls space_used parse failed cs q).0 ≡ (spec_calls cs s).0)
        × Represents space_used cap (calls space_used parse failed cs q).1 (spec_calls cs s).1
  unfolding calls spec_calls
  calls-Represents [] q s h f r = (refl, r)
  calls-Represents (c ∷ cs) q s h (f, fs) r =
      let (a, t) = call-Represents c q s h f r in
      let (rs, u) =
        calls-Represents cs (call space_used parse failed c q).1 (spec_call c s).1 h fs t in
      (ap₂ (λ x xs. x ∷ xs) a rs, u)

-- A read reports the log entries that are there, and not those that it adds itself.
pub read_logs_first :
    {L E : Type 0} (space_used : L → ℕ) (parse : List ℕ → Option E) (failed : L) (q : EventQueues L)
    → (read_queues space_used parse failed q).0.0 ≡ q.log_messages
unfolding read_queues read_logs
read_logs_first space_used parse failed q = refl
