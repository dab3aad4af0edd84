-- ===== src/Dist/Streams/Credit.antt =====
-- native/iroh_discovery/src/dist.rs: the credit of one stream, over every interleaving of `send`,
-- `credit` and `close` with the loop of `run_stream`.
use nerves_p2p.Prelude.{
  ℕ, ◌+◌, ◌-◌, ◌≤◌, ◌≡◌, ◌≢◌, refl, subst, Bool, true, false, List, [], ◌∷◌, ◌++◌, length,
  length-take, min, suc, nat_eq, ltb, ◌||◌, some, none, ok, arith,
}
use nerves_p2p.Prelude.Bytes.{Bytes}
use nerves_p2p.Discovery.Types.{u64_max, saturating_add}
use nerves_p2p.Dist.Streams.{
  credit_window, data_chunk, Reason, StreamCommand, send_bytes, give_credit, close_stream,
  StreamState, try_send, charge_send, add_receive, send_on, credit_on, close_on, opened_stream,
}
use nerves_p2p.Dist.Streams.Loop.{
  Task, waiting, writing, ended, chunk, no_more, read_error, take_command, on_command, on_written,
  on_read, reads_now, fill_buffer, on_count,
}

-- The bytes to be sent, and the credit to be given, that the queue holds.
abbrev pub queued : List StreamCommand → ℕ
queued [] = 0
queued (send_bytes bytes ∷ cs) = length bytes + queued cs
queued (give_credit n ∷ cs) = queued cs
queued (close_stream ∷ cs) = queued cs

abbrev pub granted : List StreamCommand → ℕ
granted [] = 0
granted (send_bytes bytes ∷ cs) = granted cs
granted (give_credit n ∷ cs) = n + granted cs
granted (close_stream ∷ cs) = granted cs

-- A call, or a step of the loop.
pub data Step : StreamState × Task → StreamState × Task → Type 0 where
  sends :
      (s s' : StreamState) (t : Task) (bytes : Bytes)
      → send_on bytes s ≡ ok s'
      → Step (s, t) (s', t)
  credits : (s s' : StreamState) (t : Task) (n : ℕ) → credit_on n s ≡ ok s' → Step (s, t) (s', t)
  closes : (s s' : StreamState) (t : Task) → close_on s ≡ ok s' → Step (s, t) (s', t)
  takes :
      (s s' : StreamState) (c : StreamCommand) (n : ℕ)
      → take_command s ≡ some (c, s')
      → Step (s, waiting n) (s', on_command n (some c))
  orphaned : (s : StreamState) (n : ℕ) → Step (s, waiting n) (s, on_command n none)
  writes :
      (s : StreamState) (n id : ℕ) (bytes : Bytes) (written port_open : Bool)
      → Step
          (s, writing n bytes)
          (
            (on_written written port_open id n bytes s).1,
            (on_written written port_open id n bytes s).0,
          )
  reads :
      (s : StreamState) (n id : ℕ) (arrived : Bytes) (port_open : Bool)
      → reads_now n ≡ true
      → Step
          (s, waiting n)
          (
            (on_read port_open id n (chunk arrived) s).1,
            (on_read port_open id n (chunk arrived) s).0,
          )
  stops :
      (s : StreamState) (n id : ℕ) (port_open : Bool)
      → reads_now n ≡ true
      → Step
          (s, waiting n)
          ((on_read port_open id n no_more s).1, (on_read port_open id n no_more s).0)
  fails :
      (s : StreamState) (n id : ℕ) (port_open : Bool)
      → reads_now n ≡ true
      → Step
          (s, waiting n)
          ((on_read port_open id n read_error s).1, (on_read port_open id n read_error s).0)

-- From the stream as it is installed.
pub data Reached : StreamState × Task → Type 0 where
  installed : Reached (opened_stream, waiting credit_window)
  later : {x y : StreamState × Task} → Reached x → Step x y → Reached y

-- Every byte of the window is credit to send, waits in the queue, or is being written; the receive
-- credit that the calls see is the loop's own with what the queue still grants it, and fits the
-- window; the loop has not ended for a wrong credit.
abbrev pub Balanced : StreamState × Task → Type 0
Balanced (s, waiting n) =
    (s.send_credit + queued s.commands ≡ credit_window)
    × (s.receive_credit ≡ n + granted s.commands)
    × (s.receive_credit ≤ credit_window)
Balanced (s, writing n bytes) =
    (s.send_credit + (length bytes + queued s.commands) ≡ credit_window)
    × (s.receive_credit ≡ n + granted s.commands)
    × (s.receive_credit ≤ credit_window)
Balanced (s, ended reason) = reason ≢ Reason.invalid_credit

queued-snoc :
    (cs : List StreamCommand) (c : StreamCommand)
    → queued (cs ++ (c ∷ [])) ≡ queued cs + queued (c ∷ [])
queued-snoc [] c = omega arith
queued-snoc (send_bytes b ∷ cs) c = omega (arith, queued-snoc cs c)
queued-snoc (give_credit n ∷ cs) c = queued-snoc cs c
queued-snoc (close_stream ∷ cs) c = queued-snoc cs c

granted-snoc :
    (cs : List StreamCommand) (c : StreamCommand)
    → granted (cs ++ (c ∷ [])) ≡ granted cs + granted (c ∷ [])
granted-snoc [] c = omega arith
granted-snoc (send_bytes b ∷ cs) c = granted-snoc cs c
granted-snoc (give_credit n ∷ cs) c = omega (arith, granted-snoc cs c)
granted-snoc (close_stream ∷ cs) c = granted-snoc cs c

-- How a call changes the stream: what it takes from the send credit it queues, and what it adds to
-- the receive credit it grants.
abbrev Shift : StreamState → StreamState → Type 0
Shift s s' =
    (s'.send_credit + queued s'.commands ≡ s.send_credit + queued s.commands)
    × (s'.receive_credit + granted s.commands ≡ s.receive_credit + granted s'.commands)
    × (s.receive_credit ≤ credit_window → s'.receive_credit ≤ credit_window)

Shift-Balanced : (s s' : StreamState) (t : Task) → Shift s s' → Balanced (s, t) → Balanced (s', t)
Shift-Balanced s s' (waiting n) (a, b, c) (x, y, z) =
    (omega (arith, a, x), omega (arith, b, y), c z)
Shift-Balanced s s' (writing n bytes) (a, b, c) (x, y, z) =
    (omega (arith, a, x), omega (arith, b, y), c z)
Shift-Balanced s s' (ended r) shift h = h

send_on-Shift : (s s' : StreamState) (bytes : Bytes) → send_on bytes s ≡ ok s' → Shift s s'
unfolding send_on charge_send try_send
send_on-Shift s s' bytes h =
    let made : record s {
      commands = s.commands ++ (send_bytes bytes ∷ []);
      send_credit = s.send_credit - length bytes;
    }
        ≡ s' =
      ground arith in
    let enough : length bytes ≤ s.send_credit = ground arith in
    subst (Shift s) made (
      omega (arith, enough, queued-snoc s.commands (send_bytes bytes)),
      omega (arith, granted-snoc s.commands (send_bytes bytes)),
      (λ z. z),
    )

credit_on-Shift : (s s' : StreamState) (n : ℕ) → credit_on n s ≡ ok s' → Shift s s'
unfolding credit_on add_receive try_send
credit_on-Shift s s' n h =
    let made : record s {
      commands = s.commands ++ (give_credit n ∷ []);
      receive_credit = s.receive_credit + n;
    }
        ≡ s' =
      ground arith in
    let fits : s.receive_credit + n ≤ credit_window = ground arith in
    subst (Shift s) made (
      omega (arith, queued-snoc s.commands (give_credit n)),
      omega (arith, granted-snoc s.commands (give_credit n)),
      (λ z. fits),
    )

close_on-Shift : (s s' : StreamState) → close_on s ≡ ok s' → Shift s s'
unfolding close_on try_send
close_on-Shift s s' h =
    let made : record s { commands = s.commands ++ (close_stream ∷ []) } ≡ s' = ground arith in
    subst (Shift s) made (
      omega (arith, queued-snoc s.commands close_stream),
      omega (arith, granted-snoc s.commands close_stream),
      (λ z. z),
    )

on_command-Balanced :
    (d : StreamCommand) (cs : List StreamCommand) (x y n : ℕ)
    → Balanced (record { commands = d ∷ cs; send_credit = x; receive_credit = y }, waiting n)
    → Balanced
        (record { commands = cs; send_credit = x; receive_credit = y }, on_command n (some d))
unfolding on_command
on_command-Balanced (send_bytes bytes) cs x y n b = b
on_command-Balanced (give_credit m) cs x y n (a, b, c) =
    let fits : (ltb u64_max (n + m) || ltb credit_window (n + m)) ≡ false = ground (arith, b, c) in
    rw fits (a, omega (arith, b), c)
on_command-Balanced close_stream cs x y n b = λ e. ground (arith, e)

takes-Balanced :
    (cs : List StreamCommand) (x y : ℕ) (s' : StreamState) (c : StreamCommand) (n : ℕ)
    → take_command (record { commands = cs; send_credit = x; receive_credit = y }) ≡ some (c, s')
    → Balanced (record { commands = cs; send_credit = x; receive_credit = y }, waiting n)
    → Balanced (s', on_command n (some c))
unfolding take_command
takes-Balanced [] x y s' c n h b = ground arith
takes-Balanced (d ∷ cs) x y s' c n h b =
    let same : d ≡ c = ground (arith, h) in
    let left : record { commands = cs; send_credit = x; receive_credit = y } ≡ s' =
      ground (arith, h) in
    subst (λ r. Balanced (r, on_command n (some c))) left
      (subst
        (λ e.
          Balanced
            (record { commands = cs; send_credit = x; receive_credit = y }, on_command n (some e)))
        same (on_command-Balanced d cs x y n b))

writes-Balanced :
    (s : StreamState) (n id : ℕ) (bytes : Bytes) (written port_open : Bool)
    → Balanced (s, writing n bytes)
    → Balanced (
      (on_written written port_open id n bytes s).1,
      (on_written written port_open id n bytes s).0,
    )
unfolding on_written saturating_add
writes-Balanced s n id bytes false p b = λ e. ground (arith, e)
writes-Balanced s n id bytes true false b = λ e. ground (arith, e)
writes-Balanced s n id bytes true true (a, b, c) = (omega (arith, a), b, c)

pub not_empty : (xs : Bytes) → nat_eq (suc (length xs)) 0 ≡ false
not_empty xs = ground arith

pub length-fill_buffer :
    (n : ℕ) (arrived : Bytes) → length (fill_buffer n arrived) ≤ min n data_chunk
unfolding fill_buffer
length-fill_buffer n arrived = omega (arith, length-take (min n data_chunk) arrived)

on_count-Balanced :
    (s : StreamState) (n id : ℕ) (bytes : Bytes) (port_open : Bool)
    → length bytes ≤ n
    → Balanced (s, waiting n)
    → Balanced ((on_count port_open id n bytes s).1, (on_count port_open id n bytes s).0)
unfolding on_count
on_count-Balanced s n id [] p fits b = λ e. ground (arith, e)
on_count-Balanced s n id (x ∷ xs) false fits b = rw (not_empty xs) (λ e. ground (arith, e))
on_count-Balanced s n id (x ∷ xs) true fits (a, b, c) =
    rw (not_empty xs) (a, omega (arith, b, fits), omega (arith, c))

reads-Balanced :
    (s : StreamState) (n id : ℕ) (arrived : Bytes) (port_open : Bool)
    → Balanced (s, waiting n)
    → Balanced
        ((on_read port_open id n (chunk arrived) s).1, (on_read port_open id n (chunk arrived) s).0)
unfolding on_read
reads-Balanced s n id arrived p b =
    on_count-Balanced s n id (fill_buffer n arrived) p (omega (arith, length-fill_buffer n arrived))
      b

Step-Balanced : (x y : StreamState × Task) → Step x y → Balanced x → Balanced y
unfolding on_read on_command
Step-Balanced x y (sends s s' t bytes h) b = Shift-Balanced s s' t (send_on-Shift s s' bytes h) b
Step-Balanced x y (credits s s' t n h) b = Shift-Balanced s s' t (credit_on-Shift s s' n h) b
Step-Balanced x y (closes s s' t h) b = Shift-Balanced s s' t (close_on-Shift s s' h) b
Step-Balanced x y (takes s s' c n h) b =
    takes-Balanced s.commands s.send_credit s.receive_credit s' c n h b
Step-Balanced x y (writes s n id bytes w p) b = writes-Balanced s n id bytes w p b
Step-Balanced x y (orphaned s n) b = λ e. ground (arith, e)
Step-Balanced x y (reads s n id arrived p now) b = reads-Balanced s n id arrived p b
Step-Balanced x y (stops s n id p now) b = λ e. ground (arith, e)
Step-Balanced x y (fails s n id p now) b = λ e. ground (arith, e)

-- In every interleaving of the calls with the loop, the credit of a stream is balanced: no byte of
-- the send window is lost or made, the receive credit that the calls see is the loop's own with
-- what the queue still grants it and stays within the window, and the loop never ends for a wrong
-- credit.
pub Reached-Balanced : (x : StreamState × Task) → Reached x → Balanced x
unfolding opened_stream
Reached-Balanced x installed = (refl, refl, omega arith)
Reached-Balanced x (later {x = w} path step) = Step-Balanced w x step (Reached-Balanced w path)

-- The credit that a write gives back is just what its `send` took: no bound cuts it.
pub on_written-Reached :
    (s : StreamState) (n id : ℕ) (bytes : Bytes)
    → Reached (s, writing n bytes)
    → (on_written true true id n bytes s).1.send_credit ≡ s.send_credit + length bytes
unfolding on_written saturating_add
on_written-Reached s n id bytes path =
    let (a, b, c) = Reached-Balanced (s, writing n bytes) path in omega (arith, a)
