-- ===== src/Dist/Streams/Delivered.antt =====
-- native/iroh_discovery/src/dist.rs: how much the loop of `run_stream` reads, against the credit that
-- the node has given, over every interleaving of the calls with the loop.
use nerves_p2p.Prelude.{
  ℕ, ◌+◌, ◌-◌, ◌≤◌, ◌≡◌, refl, ap, sym, ◌++◌, some, true, false, Bool, List, [], ◌∷◌, length, ok,
  arith,
}
use nerves_p2p.Prelude.Bytes.{Bytes}
use nerves_p2p.Dist.Streams.{
  credit_window, StreamState, send_bytes, give_credit, close_stream, StreamCommand, try_send,
  charge_send, add_receive, send_on, credit_on, close_on, opened_stream,
}
use nerves_p2p.Dist.Streams.Loop.{
  Task, waiting, take_command, on_written, on_read, on_count, fill_buffer,
}
use nerves_p2p.Dist.Streams.Credit.{
  Step, sends, credits, closes, takes, orphaned, writes, reads, stops, fails, Reached, installed,
  later, Balanced, Reached-Balanced, length-fill_buffer, not_empty,
}

-- The bytes that a step reads off the stream, and the credit that it gives.
unfoldable pub step_delivered : {x y : StreamState × Task} → Step x y → ℕ
step_delivered (reads s n id arrived p now) = length (fill_buffer n arrived)
step_delivered (sends s s' t bytes h) = 0
step_delivered (credits s s' t n h) = 0
step_delivered (closes s s' t h) = 0
step_delivered (takes s s' c n h) = 0
step_delivered (orphaned s n) = 0
step_delivered (writes s n id bytes w p) = 0
step_delivered (stops s n id p now) = 0
step_delivered (fails s n id p now) = 0

unfoldable pub step_credited : {x y : StreamState × Task} → Step x y → ℕ
step_credited (credits s s' t n h) = n
step_credited (reads s n id arrived p now) = 0
step_credited (sends s s' t bytes h) = 0
step_credited (closes s s' t h) = 0
step_credited (takes s s' c n h) = 0
step_credited (orphaned s n) = 0
step_credited (writes s n id bytes w p) = 0
step_credited (stops s n id p now) = 0
step_credited (fails s n id p now) = 0

unfoldable pub delivered : {x : StreamState × Task} → Reached x → ℕ
delivered installed = 0
delivered (later path step) = delivered path + step_delivered step

unfoldable pub credited : {x : StreamState × Task} → Reached x → ℕ
credited installed = 0
credited (later path step) = credited path + step_credited step

receive-send_on :
    (s s' : StreamState) (bytes : Bytes)
    → send_on bytes s ≡ ok s'
    → s'.receive_credit ≡ s.receive_credit
unfolding send_on charge_send try_send
receive-send_on s s' bytes h =
    let made : record s {
      commands = s.commands ++ (send_bytes bytes ∷ []);
      send_credit = s.send_credit - length bytes;
    }
        ≡ s' =
      ground arith in
    ap (λ r. r.receive_credit) (sym made)

receive-credit_on :
    (s s' : StreamState) (n : ℕ) → credit_on n s ≡ ok s' → s'.receive_credit ≡ s.receive_credit + n
unfolding credit_on add_receive try_send
receive-credit_on s s' n h =
    let made : record s {
      commands = s.commands ++ (give_credit n ∷ []);
      receive_credit = s.receive_credit + n;
    }
        ≡ s' =
      ground arith in
    ap (λ r. r.receive_credit) (sym made)

receive-close_on : (s s' : StreamState) → close_on s ≡ ok s' → s'.receive_credit ≡ s.receive_credit
unfolding close_on try_send
receive-close_on s s' h =
    let made : record s { commands = s.commands ++ (close_stream ∷ []) } ≡ s' = ground arith in
    ap (λ r. r.receive_credit) (sym made)

receive-on_count :
    (s : StreamState) (n id : ℕ) (bytes : Bytes) (p : Bool)
    → length bytes ≤ s.receive_credit
    → (on_count p id n bytes s).1.receive_credit + length bytes ≡ s.receive_credit
unfolding on_count
receive-on_count s n id [] p fits = omega arith
receive-on_count s n id (x ∷ xs) p fits = rw (not_empty xs) (omega (arith, fits))

receive-take_command :
    (cs : List StreamCommand) (x y : ℕ) (c : StreamCommand) (s' : StreamState)
    → take_command (record { commands = cs; send_credit = x; receive_credit = y }) ≡ some (c, s')
    → s'.receive_credit ≡ y
unfolding take_command
receive-take_command [] x y c s' h = ground arith
receive-take_command (d ∷ cs) x y c s' h =
    let left : record { commands = cs; send_credit = x; receive_credit = y } ≡ s' =
      ground (arith, h) in
    ap (λ r. r.receive_credit) (sym left)

receive-on_written :
    (w p : Bool) (id n : ℕ) (bytes : Bytes) (s : StreamState)
    → (on_written w p id n bytes s).1.receive_credit ≡ s.receive_credit
unfolding on_written
receive-on_written true p id n bytes s = refl
receive-on_written false p id n bytes s = refl

-- What is read fits the credit that the calls see, since that is not below the loop's own.
filled-Balanced :
    (s : StreamState) (n : ℕ) (arrived : Bytes)
    → Balanced (s, waiting n)
    → length (fill_buffer n arrived) ≤ s.receive_credit
filled-Balanced s n arrived (a, b, c) = omega (arith, b, length-fill_buffer n arrived)

Step-delivered :
    (x y : StreamState × Task) (step : Step x y)
    → Balanced x
    → step_delivered step + y.0.receive_credit ≡ x.0.receive_credit + step_credited step
unfolding step_delivered step_credited on_read
Step-delivered x y (sends s s' t bytes h) b = omega (arith, receive-send_on s s' bytes h)
Step-delivered x y (credits s s' t n h) b = omega (arith, receive-credit_on s s' n h)
Step-delivered x y (closes s s' t h) b = omega (arith, receive-close_on s s' h)
Step-delivered x y (takes s s' c n h) b =
    omega (arith, receive-take_command s.commands s.send_credit s.receive_credit c s' h)
Step-delivered x y (orphaned s n) b = omega arith
Step-delivered x y (writes s n id bytes w p) b = omega (arith, receive-on_written w p id n bytes s)
Step-delivered x y (reads s n id arrived p now) b =
    omega (arith, receive-on_count s n id (fill_buffer n arrived) p (filled-Balanced s n arrived b))
Step-delivered x y (stops s n id p now) b = omega arith
Step-delivered x y (fails s n id p now) b = omega arith

-- In every interleaving of the calls with the loop, the bytes that have been read off a stream and
-- the receive credit that it has left are together the window and the credit that the node has
-- given: what is read never exceeds what was allowed, and no allowance is lost.
pub Reached-delivered :
    (x : StreamState × Task) (path : Reached x)
    → delivered path + x.0.receive_credit ≡ credit_window + credited path
unfolding delivered credited opened_stream
Reached-delivered x installed = omega arith
Reached-delivered x (later {x = w} path step) =
    omega (arith, Reached-delivered w path, Step-delivered w x step (Reached-Balanced w path))
