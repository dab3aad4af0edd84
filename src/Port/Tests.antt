-- ===== src/Port/Tests.antt =====
-- native/iroh_discovery/src/bin/iroh_discovery_port.rs at concrete inputs: the theorems of Port.
mod Handlers
use nerves_p2p.Prelude.{◌≡◌, [], ◌∷◌, ◌++◌, ok, arith}
use nerves_p2p.Prelude.Bytes.{Bytes, text}
use nerves_p2p.Discovery.Types.{CapabilityValue}
use nerves_p2p.Port.Values.{
  Value, json_capability, capability_json, json_capability-capability_json,
}
use nerves_p2p.Port.Main.{read_all}
use nerves_p2p.Port.Main.Reading.{Ends, read_all-Ends}
use nerves_p2p.Port.Frames.{read_frame, write_json, payload, read_frame-write_json}

abbrev writes : Value → Bytes
writes v = text "{}"

read_frame-write_json_example :
    read_frame (write_json writes Value.null ++ (9 ∷ [])) ≡ ok (payload (text "{}"), 9 ∷ [])
read_frame-write_json_example = read_frame-write_json writes Value.null (9 ∷ []) (omega arith)

json_capability-capability_json_example :
    json_capability (capability_json (CapabilityValue.text_list (text "gpu" ∷ [])))
    ≡ ok (CapabilityValue.text_list (text "gpu" ∷ []))
json_capability-capability_json_example =
    json_capability-capability_json (CapabilityValue.text_list (text "gpu" ∷ []))

-- An empty frame, and three bytes of another.
read_all-Ends_example : Ends (read_all 8 (0 ∷ 0 ∷ 0 ∷ 0 ∷ 0 ∷ 0 ∷ 1 ∷ []))
read_all-Ends_example = read_all-Ends 8 (0 ∷ 0 ∷ 0 ∷ 0 ∷ 0 ∷ 0 ∷ 1 ∷ []) (omega arith)
