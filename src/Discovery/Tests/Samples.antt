-- ===== src/Discovery/Tests/Samples.antt =====
-- Inputs to native/iroh_discovery/src/lib.rs: a fleet, a node, and what it announces.
use nerves_p2p.Prelude.{refl, true, [], ◌∷◌, ◌++◌}
use nerves_p2p.Prelude.Bytes.{Bytes, text}
use nerves_p2p.Discovery.Types.{EndpointId, Keys, Announcement, Withdrawal, CapabilityValue}
use nerves_p2p.Discovery.Store.Memory.{MemorySequenceStore}
use nerves_p2p.Discovery.Registry.{Registry, EnrollmentPolicy}
use nerves_p2p.Discovery.Sign.{SecretKey, Signs}

abbrev pub fleet : Bytes
fleet = text "fleet-fleet-fleet-fleet-fleet-32"

abbrev pub node : EndpointId
node = text "node1-node1-node1-node1-node1-32"

abbrev pub stamp : Bytes
stamp = fleet ++ node

-- Keys by which every 32 bytes are an endpoint, and one signature is good.
abbrev pub keys : Keys
keys = record { is_endpoint = λ x. true; is_signature = λ x. true; verify = λ e t s. true }

abbrev pub secret : SecretKey
secret = record { public = node; sign = λ t. stamp }

pub secret-Signs : Signs keys secret
secret-Signs = record { size = λ t. refl; form = λ t. refl; verifies = λ t. refl }

abbrev pub offer : Announcement
offer = record {
  fleet_id = fleet;
  endpoint_id = node;
  node_name = text "a@h";
  partisan_ip = 10 ∷ 0 ∷ 0 ∷ 1 ∷ [];
  partisan_port = 9000;
  sequence = 7;
  ttl_ms = 5000;
  capabilities =
      (text "gpu", CapabilityValue.bool true) ∷ (text "ram", CapabilityValue.uint 300) ∷ [];
  load = record { running = 1; capacity = 4 };
}

abbrev pub leave : Withdrawal
leave = record { fleet_id = fleet; endpoint_id = node; sequence = 8 }

abbrev pub registry : Registry MemorySequenceStore
registry = record {
  fleet_id = fleet;
  authorization = (node, text "a@h") ∷ [];
  enrollment = EnrollmentPolicy.strict;
  store = [];
  records = [];
  rate = [];
}
