-- ===== src/Command/Registry/Pipeline.antt =====
-- The dispatch loop: it always ends, and a buffer of commands is a sequence of commands.
use keva_db.Base.{
  ℕ, zero, suc, ◌+◌, ◌<◌, ◌≡◌, ◌≢◌, refl, ap, ◌∙◌, [], ◌∷◌, ◌++◌, append_assoc, arith, length, drop,
  length-drop, length-append, drop-append, Bytes,
}
use keva_db.Command.World.{System, World}
use keva_db.Command.Registry.{
  Registry, execute, consumed_of, Dispatched, waiting, crashed, unfinished, turn, dispatch_loop,
  dispatch,
}
use keva_db.Net.Connection.{read_view}
use keva_db.Protocol.Encoder.{encode, encode_all}
use keva_db.Protocol.Parser.{Parsed, complete, incomplete, bad, thrown, out_of_fuel, parse}
use keva_db.Protocol.Parser.RoundTrip.{Writable, AllWritable, as_read, parse-encode}
use keva_db.Protocol.Parser.Total.{parse_total, parse_consumed}
use keva_db.Protocol.RespTypes.{RespValue, RespValues, none_left, value, elements}
use keva_db.Command.Registry.Unread.{left_after}

abbrev pub Settled : Dispatched → Type 0
Settled (waiting w) = Unit
Settled (crashed w) = Unit
Settled (unfinished w) = ⊥

module _ (reserve_limit : ℕ) (table : Registry) where
  turn-Settled :
      (again : World → Dispatched) (sys : System) (w : World) (r : Parsed RespValue) (n : ℕ)
      → r ≢ out_of_fuel
      → ((v : RespValue) (rest : Bytes)
          → r ≡ complete v rest
          → Settled (again (execute table sys v (elements v) (consumed_of n w))))
      → Settled (turn reserve_limit table again sys (r, n) w)
  unfolding turn
  turn-Settled again sys w (complete v rest) n h k = k v rest refl
  turn-Settled again sys w incomplete n h k = tt
  turn-Settled again sys w bad n h k = tt
  turn-Settled again sys w thrown n h k = tt
  turn-Settled again sys w out_of_fuel n h k = absurd (h refl)

  nonempty-Settled :
      (s : Bytes) (w : World) (t : Dispatched)
      → Settled t
      → Settled (elim s [ [] ↦ waiting w | _ ∷ _ ↦ t ])
  nonempty-Settled [] w t h = tt
  nonempty-Settled (c ∷ s) w t h = h

  nonempty-turn :
      (s : Bytes) (w : World) (t : Dispatched)
      → 0 < length s
      → (elim s [ [] ↦ waiting w | _ ∷ _ ↦ t ]) ≡ t
  nonempty-turn [] w t h = absurd (omega arith)
  nonempty-turn (c ∷ s) w t h = refl

  dispatch_loop-Settled :
      (fuel : ℕ) (sys : ℕ → System) (w : World)
      → length (read_view w.conn) < fuel
      → Settled (dispatch_loop reserve_limit table fuel sys w)
  unfolding dispatch_loop
  dispatch_loop-Settled zero sys w lt = absurd (omega arith)
  dispatch_loop-Settled (suc fuel) sys w lt =
      let input = read_view w.conn in
      let n = (parse reserve_limit input).1 in
      let later : ℕ → System = λ i. sys (suc i) in
      nonempty-Settled input w _ (
        turn-Settled (dispatch_loop reserve_limit table fuel later) (sys 0) w
          (parse reserve_limit input).0 n (parse_total reserve_limit input).0
          λ v rest e.
            let (pos, total) = parse_consumed reserve_limit input v rest e in
            let left = left_after table (sys 0) v n w pos (omega arith) in
            dispatch_loop-Settled fuel later _ (rw left (omega (arith, length-drop n input))))

  -- The dispatch loop ends on every input within its fuel of one turn more than unread bytes: it
  -- waits for more bytes, or the reservation of an array throws.
  pub dispatch-Settled :
      (sys : ℕ → System) (w : World) → Settled (dispatch reserve_limit table sys w)
  unfolding dispatch
  dispatch-Settled sys w = dispatch_loop-Settled (length (read_view w.conn) + 1) sys w (omega arith)

  -- The commands one after the other, each at the clocks of its turn.
  unfoldable pub run_each : (ℕ → System) → RespValues → World → World
  run_each sys none_left w = w
  run_each sys (value v vs) w =
      run_each (λ i. sys (suc i)) vs
        (execute table (sys 0) (as_read v) (elements (as_read v))
          (consumed_of (length (encode v)) w))

  -- One turn on a buffer that starts with a command.
  turn-encode :
      (fuel : ℕ) (sys : ℕ → System) (w : World) (v : RespValue) (rest : Bytes)
      → Writable reserve_limit v
      → read_view w.conn ≡ encode v ++ rest
      → dispatch_loop reserve_limit table (suc fuel) sys w
        ≡ dispatch_loop reserve_limit table fuel
            (λ i. sys (suc i))
            (execute table
              (sys 0)
              (as_read v)
              (elements (as_read v))
              (consumed_of (length (encode v)) w))
  unfolding dispatch_loop turn
  turn-encode fuel sys w v rest fit e =
      let input = read_view w.conn in
      let later : ℕ → System = λ i. sys (suc i) in
      let again = dispatch_loop reserve_limit table fuel later in
      let parsed : parse reserve_limit input ≡ (complete (as_read v) rest, length (encode v)) =
        ap (λ s. parse reserve_limit s) e ∙ parse-encode reserve_limit v rest fit in
      let (pos, total) =
        parse_consumed reserve_limit input (as_read v) rest (ap (λ p. p.0) parsed) in
      nonempty-turn input w _ (omega arith)
      ∙ ap (λ p. turn reserve_limit table again (sys 0) p w) parsed

  -- A buffer that starts with a command holds a byte, and the turn leaves what is behind it.
  view-encode :
      (sys : System) (w : World) (v : RespValue) (rest : Bytes)
      → Writable reserve_limit v
      → read_view w.conn ≡ encode v ++ rest
      → (0 < length (encode v))
        × (read_view
              (execute table sys
                (as_read v)
                (elements (as_read v))
                (consumed_of (length (encode v)) w)).conn
            ≡ rest)
  view-encode sys w v rest fit e =
      let input = read_view w.conn in
      let parsed : parse reserve_limit input ≡ (complete (as_read v) rest, length (encode v)) =
        ap (λ s. parse reserve_limit s) e ∙ parse-encode reserve_limit v rest fit in
      let (pos, total) =
        parse_consumed reserve_limit input (as_read v) rest (ap (λ p. p.0) parsed) in
      let k : (parse reserve_limit input).1 ≡ length (encode v) = ap (λ p. p.1) parsed in
      let left =
        left_after table sys (as_read v) (length (encode v)) w (omega arith) (omega arith) in
      let behind : drop (length (encode v)) input ≡ rest =
        ap (drop (length (encode v))) e ∙ drop-append (encode v) rest in
      (omega arith, left ∙ behind)

  -- A turn on an incomplete command changes nothing.
  turn_incomplete :
      (fuel : ℕ) (sys : ℕ → System) (w : World)
      → (parse reserve_limit (read_view w.conn)).0 ≡ incomplete
      → dispatch_loop reserve_limit table (suc fuel) sys w ≡ waiting w
  unfolding dispatch_loop turn
  turn_incomplete fuel sys w stop =
      let again = dispatch_loop reserve_limit table fuel (λ i. sys (suc i)) in
      let n = (parse reserve_limit (read_view w.conn)).1 in
      either_way (read_view w.conn) _
        (ap (λ r. turn reserve_limit table again (sys 0) (r, n) w) stop)
    where
      either_way :
          (s : Bytes) (t : Dispatched)
          → t ≡ waiting w
          → (elim s [ [] ↦ waiting w | _ ∷ _ ↦ t ]) ≡ waiting w
      either_way [] t h = refl
      either_way (c ∷ s) t h = h

  pipeline_loop :
      (vs : RespValues) (fuel : ℕ) (sys : ℕ → System) (w : World) (rest : Bytes)
      → AllWritable reserve_limit vs
      → read_view w.conn ≡ encode_all vs ++ rest
      → (parse reserve_limit rest).0 ≡ incomplete
      → length (read_view w.conn) < fuel
      → (dispatch_loop reserve_limit table fuel sys w ≡ waiting (run_each sys vs w))
        × (read_view (run_each sys vs w).conn ≡ rest)
  unfolding run_each encode_all Writable
  pipeline_loop vs zero sys w rest fit e stop lt = absurd (omega arith)
  pipeline_loop none_left (suc fuel) sys w rest fit e stop lt =
      (turn_incomplete fuel sys w (ap (λ s. (parse reserve_limit s).0) e ∙ stop), e)
  pipeline_loop (value v vs) (suc fuel) sys w rest (fit, fits) e stop lt =
      let e' : read_view w.conn ≡ encode v ++ (encode_all vs ++ rest) =
        e ∙ append_assoc (encode v) (encode_all vs) rest in
      let w' =
        execute table (sys 0) (as_read v) (elements (as_read v))
          (consumed_of (length (encode v)) w) in
      let (some_bytes, left) = view-encode (sys 0) w v (encode_all vs ++ rest) fit e' in
      let (run, done) =
        pipeline_loop vs fuel (λ i. sys (suc i)) w' rest fits left stop
          (rw left
            (omega (arith, ap length e', length-append (encode v) (encode_all vs ++ rest)))) in
      (turn-encode fuel sys w v (encode_all vs ++ rest) fit e' ∙ run, done)

  -- A read buffer with whole commands, and an incomplete one behind them at most, is dispatched
  -- command by command in order, and the incomplete bytes stay unread.
  pub dispatch-pipeline :
      (sys : ℕ → System) (w : World) (vs : RespValues) (rest : Bytes)
      → AllWritable reserve_limit vs
      → read_view w.conn ≡ encode_all vs ++ rest
      → (parse reserve_limit rest).0 ≡ incomplete
      → (dispatch reserve_limit table sys w ≡ waiting (run_each sys vs w))
        × (read_view (run_each sys vs w).conn ≡ rest)
  unfolding dispatch
  dispatch-pipeline sys w vs rest fit e stop =
      pipeline_loop vs (length (read_view w.conn) + 1) sys w rest fit e stop (omega arith)
