-- ===== src/Chat/Protocol/Stream.antt =====
-- TCP keeps no frame boundaries: what `receive` makes of a stream of frames that arrives in pieces.
use c_book.Prelude.{
  ℕ, zero, suc, ◌<◌, ◌≤◌, ◌≡◌, refl, sym, ap, ◌∙◌, inl, inr, List, [], ◌∷◌, ◌++◌, append_assoc,
  none, some, Option, throw, ◌⊎◌, Outcome, ok, ◌>>=◌, bind-returned, sym, length, ltb, arith,
  length-append, append_split, All, All-append, Bool-cases, All-right, subst,
}
use c_book.Bytes.{IsByte, AreBytes}
use c_book.Chat.Protocol.{
  ProtocolError, max_payload, encode, try_decode, Message, Drained, Handler, drain_loop, drain,
  receive,
}
use c_book.Chat.Protocol.Frames.{frame, encode-ok, try_decode-frame, try_decode-piece}

-- The bytes of a row of messages, in order, as a peer that encodes them sends them.
unfoldable pub send_all : List Message → Outcome ProtocolError (List ℕ)
send_all [] = ok []
send_all ((t, p) ∷ ms) = do f ← encode t p; rest ← send_all ms; ok (f ++ rest)

-- Types are bytes, payloads are strings of bytes.
abbrev pub IsWire : Message → Type 0
IsWire (t, p) = (t < 256) × AreBytes p

abbrev pub join : List (List ℕ) → List ℕ
join [] = []
join (xs ∷ xss) = xs ++ join xss

abbrev Fits : Message → Type 0
Fits (t, p) = length p ≤ max_payload

abbrev frames : List Message → List ℕ
frames [] = []
frames ((t, p) ∷ ms) = frame t p ++ frames ms

-- Less than the next frame is at hand.
abbrev Waits : List Message → List ℕ → Type 0
Waits [] buf = buf ≡ []
Waits ((t, p) ∷ ms) buf = length buf < length (frame t p)

empty_append : (xs ys : List ℕ) → xs ++ ys ≡ [] → xs ≡ []
empty_append [] ys e = refl
empty_append (x ∷ xs) ys e = cc

Waits-nil : (ms : List Message) → Waits ms []
Waits-nil [] = refl
Waits-nil ((t, p) ∷ ms) = omega arith

try_decode-nil : try_decode [] ≡ ok none
unfolding try_decode
try_decode-nil = refl

same_bytes :
    (f rest : List ℕ) {bytes g h : List ℕ}
    → ◌≡◌ {A = Outcome ProtocolError (List ℕ)} (ok (f ++ rest)) (ok bytes)
    → f ≡ g
    → rest ≡ h
    → bytes ≡ g ++ h
same_bytes f rest e p q = cc

send_all-ok :
    (ms : List Message) (bytes : List ℕ)
    → send_all ms ≡ ok bytes
    → All Fits ms × (bytes ≡ frames ms)
unfolding send_all
send_all-ok [] bytes e = (tt, cc)
send_all-ok ((t, p) ∷ ms) bytes e =
    let (f, e', ef) = bind-returned _ (encode t p) (sym e) in
    let (rest, e'', er) = bind-returned _ (send_all ms) (sym e') in
    let (small, shape) = encode-ok t p ef in
    let (fits, shapes) = send_all-ok ms rest er in
    ((small, fits), same_bytes f rest e'' shape shapes)

abbrev pub error_of : Outcome ProtocolError Unit → Option ProtocolError
error_of (ok u) = none
error_of (throw e) = some e

thrown_ok : (e : ProtocolError) → ◌≡◌ {A = Outcome ProtocolError Unit} (throw e) (ok tt) → ⊥
thrown_ok e h = cc

-- The receiver did what calls with the result `o` do, and has nothing left if none threw.
pub record Received {S : Type 0} (o : Outcome ProtocolError Unit × S) (d : Drained S) : Type 0 where
  pub state : d.state ≡ o.1
  pub error : d.error ≡ error_of o.0
  pub nothing_left : o.0 ≡ ok tt → d.recv_buf ≡ []

module _ {S : Type 0} (handle : Handler S) where
  -- One call for each message, up to the first exception.
  abbrev pub handle_all : List Message → S → Outcome ProtocolError Unit × S
  handle_all [] s = (ok tt, s)
  handle_all ((t, p) ∷ ms) s =
      let (r, s') = handle t p s in elim r [ throw e ↦ (throw e, s') | ok u ↦ handle_all ms s' ]

  -- The messages `later` are still to come.
  record Going (ms : List Message) (more : List ℕ) (s : S) (d : Drained S) : Type 0 where
    later : List Message
    handled : handle_all ms s ≡ handle_all later d.state
    no_error : d.error ≡ none
    remains : d.recv_buf ++ more ≡ frames later
    waits : Waits later d.recv_buf
    bytes : AreBytes d.recv_buf
    wire : All IsWire later
    fits : All Fits later

  -- A message threw.
  record Ended (ms : List Message) (s : S) (d : Drained S) : Type 0 where
    exception : ProtocolError
    thrown : handle_all ms s ≡ (throw exception, d.state)
    an_error : d.error ≡ some exception

  abbrev Progress : List Message → List ℕ → S → Drained S → Type 0
  Progress ms more s d = Ended ms s d ⊎ Going ms more s d

  Progress-later :
      (ms ms' : List Message) (more : List ℕ) (s s' : S) (d : Drained S)
      → handle_all ms s ≡ handle_all ms' s'
      → Progress ms' more s' d
      → Progress ms more s d
  Progress-later ms ms' more s s' d e (inl g) =
      inl (record { exception = g.exception; thrown = e ∙ g.thrown; an_error = g.an_error })
  Progress-later ms ms' more s s' d e (inr g) = inr (record {
    later = g.later;
    handled = e ∙ g.handled;
    no_error = g.no_error;
    remains = g.remains;
    waits = g.waits;
    bytes = g.bytes;
    wire = g.wire;
    fits = g.fits;
  })

  stopped :
      (buf more : List ℕ) (ms : List Message) (s : S)
      → buf ++ more ≡ frames ms
      → Waits ms buf
      → AreBytes buf
      → All IsWire ms
      → All Fits ms
      → Progress ms more s (record { state = s; recv_buf = buf; error = none })
  stopped buf more ms s e w hb hw hf = inr (record {
    later = ms;
    handled = refl;
    no_error = refl;
    remains = e;
    waits = w;
    bytes = hb;
    wire = hw;
    fits = hf;
  })

  drain-stops :
      (fuel : ℕ) (buf : List ℕ) (s : S)
      → try_decode buf ≡ ok none
      → drain_loop handle (suc fuel) buf s ≡ record { state = s; recv_buf = buf; error = none }
  unfolding drain_loop
  drain-stops fuel buf s e = rw (e, drain_loop)

  -- What the loop makes of a call of the handler.
  abbrev taken : ℕ → List ℕ → Outcome ProtocolError Unit × S → Drained S
  taken fuel us (r, s') = elim r [
    | throw e ↦ record { state = s'; recv_buf = us; error = some e }
    | ok u ↦ drain_loop handle fuel us s'
  ]

  drain-takes :
      (fuel : ℕ) (buf : List ℕ) (t : ℕ) (p us : List ℕ) (s : S)
      → try_decode buf ≡ ok (some (record { out_type = t; out_payload = p; acc = us }))
      → drain_loop handle (suc fuel) buf s ≡ taken fuel us (handle t p s)
  unfolding drain_loop
  drain-takes fuel buf t p us s e = rw (e, drain_loop)

  taken-Progress :
      (fuel t : ℕ) (p us more : List ℕ) (ms : List Message) (s : S)
      (o : Outcome ProtocolError Unit × S)
      → handle t p s ≡ o
      → ((s' : S) → Progress ms more s' (drain_loop handle fuel us s'))
      → Progress ((t, p) ∷ ms) more s (taken fuel us o)
  taken-Progress fuel t p us more ms s (throw e, s') called rest = inl (record {
    exception = e;
    thrown = ap (λ o. elim o.0 [ throw e ↦ (throw e, o.1) | ok u ↦ handle_all ms o.1 ]) called;
    an_error = refl;
  })
  taken-Progress fuel t p us more ms s (ok u, s') called rest =
      Progress-later ((t, p) ∷ ms) ms more s s' (drain_loop handle fuel us s')
        (ap (λ o. elim o.0 [ throw e ↦ (throw e, o.1) | ok u ↦ handle_all ms o.1 ]) called)
        (rest s')

  drain_loop-Progress :
      (fuel : ℕ) (buf more : List ℕ) (ms : List Message) (s : S)
      → length buf ≤ fuel
      → AreBytes buf
      → All IsWire ms
      → All Fits ms
      → buf ++ more ≡ frames ms
      → Progress ms more s (drain_loop handle fuel buf s)
  unfolding drain_loop
  drain_loop-Progress zero [] more ms s h hb hw hf e =
      stopped [] more ms s e (Waits-nil ms) tt hw hf
  drain_loop-Progress zero (b ∷ buf) more ms s h hb hw hf e = absurd (omega arith)
  drain_loop-Progress (suc fuel) buf more [] s h hb hw hf e =
      let nil : buf ≡ [] = empty_append buf more e in
      subst (Progress [] more s) (sym (drain-stops fuel buf s (rw nil try_decode-nil)))
        (stopped buf more [] s e nil hb tt tt)
  drain_loop-Progress (suc fuel) buf more ((t, p) ∷ ms) s h hb hw hf e =
      elim (Bool-cases (ltb (length buf) (length (frame t p)))) [
        | inl short ↦
            let (us, cut, _) =
              append_split (frame t p) (frames ms) buf more (sym e) (ground arith) in
            subst (Progress ((t, p) ∷ ms) more s)
              (sym (
                drain-stops fuel buf s
                  (try_decode-piece t p buf us hf.0 hb (sym cut) (ground arith))))
              (stopped buf more ((t, p) ∷ ms) s e (ground arith) hb hw hf)
        | inr enough ↦
            let (us, cut, rest) = append_split buf more (frame t p) (frames ms) e (ground arith) in
            let hu : AreBytes us = All-right IsByte (frame t p) us (subst AreBytes cut hb) in
            subst (Progress ((t, p) ∷ ms) more s)
              (sym (
                drain-takes fuel buf t p us s
                  (ap try_decode cut ∙ try_decode-frame t p us hf.0 hw.0.0 hw.0.1 hu)))
              (taken-Progress fuel t p us more ms s (handle t p s) refl (λ s'.
                drain_loop-Progress fuel us more ms s'
                  (omega (arith, ap length cut, length-append (frame t p) us)) hu hw.1 hf.1 rest))
      ]

  drain-Progress :
      (buf more : List ℕ) (ms : List Message) (s : S)
      → AreBytes buf
      → All IsWire ms
      → All Fits ms
      → buf ++ more ≡ frames ms
      → Progress ms more s (drain handle buf s)
  unfolding drain
  drain-Progress buf more ms s = drain_loop-Progress (length buf) buf more ms s (omega arith)

  receive-frames :
      (chunks : List (List ℕ)) (buf : List ℕ) (ms : List Message) (s : S)
      → AreBytes buf
      → All AreBytes chunks
      → All IsWire ms
      → All Fits ms
      → Waits ms buf
      → buf ++ join chunks ≡ frames ms
      → Received (handle_all ms s) (receive handle buf chunks s)
  unfolding receive
  receive-frames [] buf [] s hb hc hw hf w e = record {
    state = refl;
    error = refl;
    nothing_left = λ done. w;
  }
  receive-frames [] buf ((t, p) ∷ ms) s hb hc hw hf w e =
      absurd (omega (arith, ap length e, length-append buf [], length-append p (frames ms)))
  receive-frames (chunk ∷ chunks) buf ms s hb hc hw hf w e =
      elim (drain-Progress (buf ++ chunk) (join chunks) ms s (All-append IsByte buf chunk hb hc.0)
        hw hf (append_assoc buf chunk (join chunks) ∙ e)) [
          | inl g ↦
              subst (Received (handle_all ms s))
                (sym (
                  ap (λ o. elim o [ some x ↦ drain handle (buf ++ chunk) s | none ↦ later ])
                    g.an_error))
                (record {
                  state = ap (λ o. o.1) (sym g.thrown);
                  error = g.an_error ∙ ap (λ o. error_of o.0) (sym g.thrown);
                  nothing_left =
                      λ done. absurd (thrown_ok g.exception (ap (λ o. o.0) (sym g.thrown) ∙ done));
                })
          | inr g ↦
              subst (Received (handle_all ms s))
                (sym (
                  ap (λ o. elim o [ some x ↦ drain handle (buf ++ chunk) s | none ↦ later ])
                    g.no_error))
                (subst (λ o. Received o later) (sym g.handled)
                  (receive-frames chunks (drain handle (buf ++ chunk) s).recv_buf g.later
                    (drain handle (buf ++ chunk) s).state g.bytes hc.1 g.wire g.fits g.waits
                    g.remains))
        ]
    where
      later : Drained S
      later =
          receive handle (drain handle (buf ++ chunk) s).recv_buf chunks
            (drain handle (buf ++ chunk) s).state

-- However the bytes of a row of encoded messages are cut into chunks, the receiver gives these messages
-- to the handler, in order, up to the first that it throws for. The state is then what the handler makes
-- of them, an exception is that of the handler, and without one the buffer is empty at the end.
pub receive-send_all :
    {S : Type 0} (handle : Handler S) (ms : List Message) (bytes : List ℕ) (chunks : List (List ℕ))
    (s : S)
    → All IsWire ms
    → send_all ms ≡ ok bytes
    → All AreBytes chunks
    → join chunks ≡ bytes
    → Received (handle_all handle ms s) (receive handle [] chunks s)
receive-send_all handle ms bytes chunks s hw e hc cut =
    let (hf, shape) = send_all-ok ms bytes e in
    receive-frames handle chunks [] ms s tt hc hw hf (Waits-nil ms) (cut ∙ shape)
