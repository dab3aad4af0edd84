-- ===== src/Dist/Tests.antt =====
-- native/iroh_discovery/src/dist.rs at concrete inputs: the theorems of Dist, applied.
use nerves_p2p.Prelude.{Eq_nat, ◌+◌, ◌-◌, ◌≡◌, refl, true, [], ◌∷◌, ◌++◌, some, none, ok}
use nerves_p2p.Prelude.Bytes.{Bytes, text, bytes_eq, from_be, from_be_onto, be_bytes}
use nerves_p2p.Prelude.Text.{is_utf8, contains, split_once}
use nerves_p2p.Prelude.HashMap
use nerves_p2p.Discovery.Validate.{valid_node_name, name_byte, host_byte}
use nerves_p2p.Discovery.Tests.Samples.{node}
use nerves_p2p.Dist.Header.{
  Header, read_exact, read_node, read_header, encode_node, encode_header, magic,
}
use nerves_p2p.Dist.Header.RoundTrip.{read_header-encode_header}
use nerves_p2p.Dist.Streams.{
  Shared, StreamState, send_bytes, give_credit, credit_on, add_receive, credit_window,
  opened_stream, send_on, try_send, charge_send, is_listening, is_bound, is_allowed, accepted_id,
  admit, accept, install_stream,
}
use nerves_p2p.Dist.Streams.Loop.{waiting, on_read, on_count, fill_buffer, reads_now}
use nerves_p2p.Dist.Streams.Credit.{
  Reached, installed, later, sends, credits, reads, Balanced, Reached-Balanced,
}
use nerves_p2p.Dist.Streams.Delivered.{
  delivered, credited, step_delivered, step_credited, Reached-delivered,
}
use nerves_p2p.Dist.Streams.Access.{IsAuthorized, accept-IsAuthorized}

abbrev here : Bytes
here = text "a@h"

abbrev there : Bytes
there = text "b@h"

valid_here : valid_node_name here ≡ true
unfolding valid_node_name name_byte host_byte contains split_once
valid_here = refl

valid_there : valid_node_name there ≡ true
unfolding valid_node_name name_byte host_byte contains split_once
valid_there = refl

utf8_here : is_utf8 here ≡ true
unfolding is_utf8
utf8_here = refl

utf8_there : is_utf8 there ≡ true
unfolding is_utf8
utf8_there = refl

read_header-encode_header_example :
    read_header (encode_header here there ++ (1 ∷ []))
    ≡ ok (record { from_node = here; target_node = there }, 1 ∷ [])
read_header-encode_header_example =
    read_header-encode_header here there (1 ∷ []) utf8_here valid_here utf8_there valid_there

abbrev waits : StreamState
waits = record {
  commands = send_bytes (text "abc") ∷ [];
  send_credit = credit_window - 3;
  receive_credit = credit_window;
}

queued : Reached (waits, waiting credit_window)
unfolding send_on charge_send try_send opened_stream
queued = later installed (sends opened_stream waits (waiting credit_window) (text "abc") refl)

Reached-Balanced_example : Balanced (waits, waiting credit_window)
Reached-Balanced_example = Reached-Balanced (waits, waiting credit_window) queued

abbrev after_read : StreamState
after_read = record waits { receive_credit = credit_window - 2 }

abbrev after_credit : StreamState
after_credit = record after_read {
  commands = send_bytes (text "abc") ∷ give_credit 1 ∷ [];
  receive_credit = credit_window - 1;
}

read_two : Reached (after_read, waiting (credit_window - 2))
unfolding on_read on_count fill_buffer
read_two = later queued (reads waits credit_window 1 (text "hi") true (unfold reads_now in refl))

credit_one : Reached (after_credit, waiting (credit_window - 2))
unfolding credit_on add_receive try_send
credit_one = later read_two (credits after_read after_credit (waiting (credit_window - 2)) 1 refl)

Reached-delivered_example :
    delivered credit_one + (credit_window - 1) ≡ credit_window + credited credit_one
Reached-delivered_example = Reached-delivered (after_credit, waiting (credit_window - 2)) credit_one

counted : (delivered credit_one ≡ 2) × (credited credit_one ≡ 1)
unfolding delivered credited step_delivered step_credited credit_one read_two queued fill_buffer
counted = (refl, refl)

abbrev home : Shared
home = record {
  next_id = 1;
  listen_node = some there;
  bindings = (here, record { endpoint = node; expires = 9000 }) ∷ [];
  streams = [];
}

-- Another task takes the name away from the listener meanwhile.
abbrev others : Shared → Shared
others shared = record shared { listen_node = none }

let_in : (accept true 1000 others home node (encode_header here there)).0 ≡ ok (some 1)
unfolding accept admit accepted_id install_stream is_allowed is_bound is_listening read_header
    read_node read_exact encode_header encode_node magic be_bytes from_be from_be_onto bytes_eq
    is_utf8 valid_node_name name_byte host_byte contains split_once HashMap.get
let_in = refl

accept-IsAuthorized_example :
    (header : Header) × (rest : Bytes) × (read_header (encode_header here there)
      ≡ ok (header, rest))
    × IsAuthorized 1000 home node header
    × (1 ≡ (others home).next_id)
    × (HashMap.get (accept true 1000 others home node (encode_header here there)).1.streams 1
        ≡ some opened_stream)
accept-IsAuthorized_example =
    accept-IsAuthorized true 1000 others home node (encode_header here there) 1 let_in
