-- ===== src/Discovery/Validate.antt =====
-- native/iroh_discovery/src/lib.rs: `valid_node_name`, `valid_capability`, `validate_announcement`
-- and `validate_withdrawal`.
use nerves_p2p.Prelude.{
  ℕ, Bool, true, false, not, ◌&&◌, ◌||◌, List, [], ◌∷◌, some, none, length, all, any, leb, ltb,
  nat_eq, if◌then◌else◌, Result, ok, err,
}
use nerves_p2p.Prelude.Bytes.{Bytes}
use nerves_p2p.Prelude.Text.{
  between, contains, split_once, is_ascii_alphanumeric, is_ascii_lowercase, is_ascii_digit,
}
use nerves_p2p.Prelude.BTreeMap.{BTreeMap, insert}
use nerves_p2p.Discovery.Types.{
  Error, CapabilityValue, bool, uint, text, text_list, Announcement, Withdrawal,
}

unfoldable pub name_byte : ℕ → Bool
name_byte b = is_ascii_alphanumeric b || (nat_eq b b'_' || nat_eq b b'-')

unfoldable pub host_byte : ℕ → Bool
host_byte b = is_ascii_alphanumeric b || (nat_eq b b'.' || nat_eq b b'-')

unfoldable pub valid_node_name : Bytes → Bool
valid_node_name value = elim (split_once value b'@') [
  | none ↦ false
  | some (name, host) ↦
      not (contains host b'@')
      && (between 1 64 (length name)
          && (between 1 189 (length host) && (all name_byte name && all host_byte host)))
]

unfoldable pub capability_byte : ℕ → Bool
capability_byte b =
    is_ascii_lowercase b
    || (is_ascii_digit b || (nat_eq b b'_' || (nat_eq b b'.' || nat_eq b b'-')))

unfoldable pub starts_lowercase : Bytes → Bool
starts_lowercase [] = false
starts_lowercase (b ∷ bs) = is_ascii_lowercase b

unfoldable pub valid_capability_name : Bytes → Bool
unfolding starts_lowercase capability_byte
valid_capability_name name =
    between 1 64 (length name) && (starts_lowercase name && all capability_byte name)

-- `values.iter().collect::<BTreeSet<_>>()`.
unfoldable pub collect_set : BTreeMap (Unit {0}) → List Bytes → BTreeMap (Unit {0})
collect_set set [] = set
collect_set set (v ∷ vs) = collect_set (insert set v tt) vs

unfoldable pub valid_capability_value : CapabilityValue → Bool
valid_capability_value (bool b) = true
valid_capability_value (uint n) = true
valid_capability_value (text t) = leb (length t) 256
valid_capability_value (text_list vs) =
    leb (length vs) 32
    && (all (λ t. leb (length t) 256) vs && nat_eq (length (collect_set [] vs)) (length vs))

unfoldable pub valid_capability : Bytes × CapabilityValue → Bool
valid_capability (name, value) = valid_capability_name name && valid_capability_value value

unfoldable pub validate_announcement : Announcement → Result (Unit {0}) Error
validate_announcement value =
    if nat_eq value.sequence 0
      || (not (between 5000 60000 value.ttl_ms)
          || (not (valid_node_name value.node_name)
              || (ltb 32 (length value.capabilities)
                  || (nat_eq value.load.capacity 0
                      || (ltb 65535 value.load.capacity
                          || (ltb value.load.capacity value.load.running
                              || any (λ entry. not (valid_capability entry))
                                  value.capabilities))))))
    then err Error.invalid_record
    else ok tt

unfoldable pub validate_withdrawal : Withdrawal → Result (Unit {0}) Error
validate_withdrawal value = if nat_eq value.sequence 0 then err Error.invalid_record else ok tt
