-- ===== src/Command/Told.antt =====
-- The pair command tells the truth about the pairing.
use docker_mobile.Base.{
  ℕ, ◌≤◌, ◌≢◌, inl, inr, Bool, false, none, some, List, [], ◌∷◌, map, arith, ltb, ltb→lt, zero, suc,
  ◌≡◌, ◌<◌, ◌⊎◌, refl, sym, subst, ◌++◌, take, Option, All, leb, not, ◌==◌, if◌then◌else◌,
  Bool-cases, Text, length, nat_eq, text_eq, Result, ok, err,
}
use docker_mobile.Pairing.Manager.{
  Outcome, paired, expired, replaced, voided, cancelled, failed, Pending,
}
use docker_mobile.State.Devices.{Device}
use docker_mobile.Config.Advertised.{Advertise}
use docker_mobile.Admin.{
  Event, Server, event_started, started_event, ending_event, report, info_of, Woke, told, timed_out,
  gone,
}
use docker_mobile.Admin.Client.{
  ClientError, max_line, responded, check_socket_path, exchange, pair, read_events, max_socket_path,
}
use docker_mobile.Command.{
  CommandError, on_event, on_events, of_ending, pair_ending, cmd_pair, paired_line,
}

-- What the command makes of a result: the line for the phone that was paired, and an error otherwise.
pub data Tells : Outcome Device → Result CommandError Text → Type 0 where
  tells_paired : (d : Device) → Tells (paired d) (ok (paired_line (info_of d)))
  tells_not :
      (r : Outcome Device) (e : CommandError) → ((d : Device) → r ≢ paired d) → Tells r (err e)

ending-Tells : (r : Outcome Device) → Tells r (of_ending (ending_event r))
unfolding of_ending ending_event
ending-Tells (paired d) = tells_paired d
ending-Tells expired = tells_not expired _ (λ d e. ground (e, arith))
ending-Tells replaced = tells_not replaced _ (λ d e. ground (e, arith))
ending-Tells voided = tells_not voided _ (λ d e. ground (e, arith))
ending-Tells cancelled = tells_not cancelled _ (λ d e. ground (e, arith))
ending-Tells (failed t) = tells_not (failed t) _ (λ d e. ground (e, arith))

-- A line that the scanner takes and that reads as an event.
abbrev pub IsReadable : (Text → Option Event) → (Event → Text) → Event → Type 0
IsReadable decode encode e = (decode (encode e) ≡ some e) × (length (encode e) < max_line)

-- What the stream holds behind its first event: the ending, or nothing where no phone was paired.
report-cases :
    (woke : Woke) (r : Outcome Device)
    → (report woke r ≡ ending_event r ∷ []) ⊎ ((report woke r ≡ []) × ((d : Device) → r ≢ paired d))
unfolding report
report-cases told r = inl refl
report-cases timed_out r = inl refl
report-cases gone (paired d) = inl refl
report-cases gone expired = inr (refl, λ d e. ground (e, arith))
report-cases gone replaced = inr (refl, λ d e. ground (e, arith))
report-cases gone voided = inr (refl, λ d e. ground (e, arith))
report-cases gone cancelled = inr (refl, λ d e. ground (e, arith))
report-cases gone (failed t) = inr (refl, λ d e. ground (e, arith))

-- The end of the command, from what it was handed.
ending_of : List Event × Option ClientError → Result CommandError Text
ending_of (events, e) =
    let s = on_events events (record { end = none; shown = false }) in pair_ending s.end e s.shown

-- The command ends with an error.
abbrev Fails : Result CommandError Text → Type 0
Fails x = (e : CommandError) × (x ≡ err e)

module _ (decode : Text → Option Event) (ctx_over : Bool) where
  -- Lines that are no events.
  read_broken :
      (broken : List Text)
      → All (λ t. decode t ≡ none) broken
      → (e : ClientError) × (read_events decode ctx_over broken ≡ ([], some e))
  unfolding read_events
  read_broken [] h = (_, refl)
  read_broken (t ∷ ts) h = elim (Bool-cases (leb max_line (length t))) [
    | inl e ↦ rw e (_, refl)
    | inr e ↦ rw (e, h.0) (_, refl)
  ]

  read_line_of :
      (t : Text) (e : Event) (lines : List Text)
      → decode t ≡ some e
      → length t < max_line
      → read_events decode ctx_over (t ∷ lines) ≡ (
          if not (e.event == event_started)
          then (e ∷ [], none)
          else (e ∷ (read_events decode ctx_over lines).0, (read_events decode ctx_over lines).1))
  unfolding read_events
  read_line_of t e lines d l = rw (short (length t) l, d) refl
    where
      short : (n : ℕ) → n < max_line → leb max_line n ≡ false
      short n l = ground (l, arith)

  module _ (encode : Event → Text) (broken : List Text)
      (refused : All (λ t. decode t ≡ none) broken) (s : Server) (later : ℕ) (p : Pending)
      (a : Advertise) where
    first : Event
    first = started_event s later p a

    -- Nothing of the stream arrives.
    none-Fails : Fails (ending_of (read_events decode ctx_over broken))
    unfolding ending_of on_events pair_ending
    none-Fails = let (e, q) = read_broken broken refused in rw q (_, refl)

    -- Only the first event arrives.
    first-Fails :
        IsReadable decode encode first
        → Fails (ending_of (read_events decode ctx_over (encode first ∷ broken)))
    unfolding ending_of on_events on_event pair_ending first started_event
    first-Fails (d, l) =
        let (e, q) = read_broken broken refused in
        rw (read_line_of (encode first) first broken d l, q) (_, refl)

    ended : (r : Outcome Device) → Tells r (ending_of (first ∷ ending_event r ∷ [], none))
    unfolding ending_of on_events on_event pair_ending first started_event ending_event
    ended (paired d) = ending-Tells (paired d)
    ended expired = ending-Tells expired
    ended replaced = ending-Tells replaced
    ended voided = ending-Tells voided
    ended cancelled = ending-Tells cancelled
    ended (failed t) = ending-Tells (failed t)

    ending_stops : (r : Outcome Device) → ((ending_event r).event == event_started) ≡ false
    unfolding ending_event
    ending_stops (paired d) = refl
    ending_stops expired = refl
    ending_stops replaced = refl
    ending_stops voided = refl
    ending_stops cancelled = refl
    ending_stops (failed t) = refl

    -- The ending arrives as well.
    both-Tells :
        (r : Outcome Device) (lines : List Text)
        → IsReadable decode encode first
        → IsReadable decode encode (ending_event r)
        → Tells r (
            ending_of
              (read_events decode ctx_over (encode first ∷ encode (ending_event r) ∷ lines)))
    unfolding first started_event
    both-Tells r lines (d, l) (d', l') =
        rw
          (
            read_line_of (encode first) first (encode (ending_event r) ∷ lines) d l,
            read_line_of (encode (ending_event r)) (ending_event r) lines d' l',
            ending_stops r,
          )
          (ended r)

    -- What arrives of a stream, and what is made of it.
    abbrev Answer : Outcome Device → ℕ → List Event → Type 0
    Answer r n stream =
        let answer =
          ending_of (read_events decode ctx_over (take n (map encode stream) ++ broken)) in
        Tells r answer ⊎ ((n < length stream) × Fails answer)

    stream-Answer :
        (r : Outcome Device) (n : ℕ) (rest : List Event)
        → (rest ≡ ending_event r ∷ []) ⊎ ((rest ≡ []) × ((d : Device) → r ≢ paired d))
        → All (IsReadable decode encode) (first ∷ rest)
        → Answer r n (first ∷ rest)
    stream-Answer r zero rest c h = inr (omega arith, none-Fails)
    stream-Answer r (suc zero) rest (inl c) h = inr (rw c (omega arith), first-Fails h.0)
    stream-Answer r (suc (suc n)) rest (inl c) h =
        subst
          (λ es. All (IsReadable decode encode) (first ∷ es) → Answer r (suc (suc n)) (first ∷ es))
          (sym c) (λ k. inl (both-Tells r (take n [] ++ broken) k.0 k.1.0)) h
    stream-Answer r (suc n) rest (inr (c, not_paired)) h =
        subst (λ es. Answer r (suc n) (first ∷ es)) (sym c) (inl (alone n))
      where
        alone :
            (n : ℕ)
            → Tells r (
                ending_of
                  (read_events decode ctx_over (encode first ∷ (take n (map encode []) ++ broken))))
        alone zero = let (e, q) = first-Fails h.0 in rw q (tells_not r e not_paired)
        alone (suc n) = let (e, q) = first-Fails h.0 in rw q (tells_not r e not_paired)

-- `cmdPair` on what arrives of a stream that `handlePair` wrote, with the status 200 and over a socket
-- whose path is not too long: the first so many lines, and then perhaps lines that are no events. The
-- lines of the stream read back as their events and are shorter than the scanner's limit. If all of them
-- arrive, the command succeeds exactly if a phone was paired, and then names that phone; if not, it does
-- so or ends with an error. It makes no difference how the request woke, or whether the command was
-- interrupted.
pub cmd_pair-Tells :
    (decode : Text → Option Event) (encode : Event → Text) (ctx_over : Bool) (path : Text)
    (s : Server) (later : ℕ) (p : Pending) (a : Advertise) (woke : Woke) (r : Outcome Device)
    (n : ℕ) (broken : List Text)
    → length path ≤ max_socket_path
    → All (IsReadable decode encode) (started_event s later p a ∷ report woke r)
    → All (λ t. decode t ≡ none) broken
    → let stream = started_event s later p a ∷ report woke r in
      let answer =
        cmd_pair decode ctx_over path (responded 200 none (take n (map encode stream) ++ broken)) in
      Tells r answer ⊎ ((n < length stream) × ((e : CommandError) × (answer ≡ err e)))
unfolding cmd_pair pair exchange check_socket_path ending_of first
cmd_pair-Tells decode encode ctx_over path s later p a woke r n broken h readable refused =
    elim (Bool-cases (ltb max_socket_path (length path))) [
      | inl e ↦ absurd (omega (ltb→lt max_socket_path (length path) e, h, arith))
      | inr e ↦ rw e (
          stream-Answer decode ctx_over encode broken refused s later p a r n (report woke r)
            (report-cases woke r) readable)
    ]
