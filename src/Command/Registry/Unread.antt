-- ===== src/Command/Registry/Unread.antt =====
-- What the commands leave unread in the buffer of a connection.
use keva_db.Base.{
  ℕ, ◌+◌, ◌≤◌, ◌<◌, ◌≡◌, refl, ◌∙◌, inl, inr, ◌||◌, Option, none, some, List, ◌∷◌, arith, ltb,
  Bool-cases, length, drop, length-drop, drop_add, Bytes,
}
use keva_db.Command.Args.{to_upper}
use keva_db.Command.ServerCmd.{handle_info, handle_save, handle_bgsave, handle_quit}
use keva_db.Command.World.{System, World}
use keva_db.Command.Registry.{
  Registry, CommandEntry, Action, run_handler, info, save, bgsave, quit, is_write, over, run_action,
  run_entry, run_found, find, execute, consumed_of,
}
use keva_db.Net.Connection.{Connection, read_view, consume, append_response}
use keva_db.Protocol.RespTypes.{
  RespValue, RespValues, none_left, value, elements, is_array, is_bulk_string, str, strs,
}

-- Consuming bytes that are there drops them from the front of what is unread.
pub read_view-consume :
    (n : ℕ) (c : Connection)
    → 0 < n
    → n ≤ length (read_view c)
    → read_view (consume n c) ≡ drop n (read_view c)
unfolding read_view consume
read_view-consume n c pos fits =
    let e = length-drop c.read_pos c.read_buf in
    let fits' : c.read_pos + n ≤ length c.read_buf = omega arith in
    elim (Bool-cases (ltb (length c.read_buf) (c.read_pos + n))) [
      | inl past ↦ absurd (ground arith)
      | inr inside ↦ rw inside (drop_add c.read_pos n c.read_buf)
    ]

-- Two states with the same unread input.
abbrev SameInput : World → World → Type 0
SameInput w w' = (w'.conn.read_buf ≡ w.conn.read_buf) × (w'.conn.read_pos ≡ w.conn.read_pos)

handle_save-SameInput : (sys : System) (w : World) → SameInput w (handle_save sys w)
unfolding handle_save append_response
handle_save-SameInput sys w = ground arith

handle_bgsave-SameInput : (sys : System) (w : World) → SameInput w (handle_bgsave sys w)
unfolding handle_bgsave append_response
handle_bgsave-SameInput sys w = ground arith

run_action-SameInput :
    (a : Action) (sys : System) (args : List Bytes) (w : World)
    → SameInput w (run_action a sys args w)
unfolding run_action append_response
run_action-SameInput (run_handler h) sys args w = (refl, refl)
run_action-SameInput info sys args w = unfold handle_info in (refl, refl)
run_action-SameInput save sys args w = handle_save-SameInput sys w
run_action-SameInput bgsave sys args w = handle_bgsave-SameInput sys w
run_action-SameInput quit sys args w = unfold handle_quit in (refl, refl)

run_entry-SameInput :
    (e : CommandEntry) (sys : System) (args : List Bytes) (w : World)
    → SameInput w (run_entry e sys args w)
unfolding run_entry append_response
run_entry-SameInput e sys args w =
    let same = run_action-SameInput e.handler sys args w in
    elim (Bool-cases (ltb (length args) e.arity_min || over (length args) e.arity_max)) [
      | inl wrong ↦ rw wrong (refl, refl)
      | inr right ↦ rw right (elim (Bool-cases (is_write e)) [
        | inl writes ↦ rw writes same
        | inr reads ↦ rw reads same
      ])
    ]

run_found-SameInput :
    (e : Option CommandEntry) (n : Bytes) (sys : System) (args : List Bytes) (w : World)
    → SameInput w (run_found e n sys args w)
unfolding run_found append_response
run_found-SameInput none n sys args w = (refl, refl)
run_found-SameInput (some e) n sys args w = run_entry-SameInput e sys args w

execute-SameInput :
    (table : Registry) (sys : System) (v : RespValue) (vs : RespValues) (w : World)
    → SameInput w (execute table sys v vs w)
unfolding execute append_response
execute-SameInput table sys v none_left w = (refl, refl)
execute-SameInput table sys v (value n vs) w = elim (Bool-cases (is_array v)) [
  | inr other ↦ rw other (refl, refl)
  | inl array ↦ rw array (elim (Bool-cases (is_bulk_string n)) [
    | inl bulk ↦
        rw bulk (run_found-SameInput (find table (to_upper (str n))) _ sys (str n ∷ strs vs) w)
    | inr other ↦ rw other (refl, refl)
  ])
]

same_view : (w w' : World) → SameInput w w' → read_view w'.conn ≡ read_view w.conn
unfolding read_view
same_view w w' (buf, cursor) = rw (buf, cursor)

-- What a turn leaves unread.
pub left_after :
    (table : Registry) (sys : System) (v : RespValue) (n : ℕ) (w : World)
    → 0 < n
    → n ≤ length (read_view w.conn)
    → read_view (execute table sys v (elements v) (consumed_of n w)).conn
      ≡ drop n (read_view w.conn)
left_after table sys v n w pos fits =
    let after = execute table sys v (elements v) (consumed_of n w) in
    let same : read_view after.conn ≡ read_view (consume n w.conn) =
      same_view (consumed_of n w) after
        (execute-SameInput table sys v (elements v) (consumed_of n w)) in
    same ∙ read_view-consume n w.conn pos fits
