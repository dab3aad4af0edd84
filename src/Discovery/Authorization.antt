-- ===== src/Discovery/Authorization.antt =====
-- native/iroh_discovery/src/lib.rs: `AuthorizationTable`, the endpoints that may announce and the
-- node name of each.
use nerves_p2p.Prelude.{
  ◌≤◌, ◌≡◌, subst, Bool, true, false, not, ◌&&◌, ◌||◌, List, [], ◌∷◌, length, any, All, ltb, nat_eq,
  if◌then◌else◌, Option, some, is_some, Result, ok, err, arith, Option-cases, inl, inr, Bool-cases,
}
use nerves_p2p.Prelude.Bytes.{Bytes, bytes_eq_refl}
use nerves_p2p.Prelude.BTreeMap.{BTreeMap, get, insert, remove, get-insert}
use nerves_p2p.Prelude.BTreeMap.Sorted.{
  Sorted, insert_all, insert-Sorted, length-insert-le, length-insert_old, All-insert, remove-Sorted,
  length-remove-le, All-remove, insert_all-Sorted_onto,
}
use nerves_p2p.Discovery.Types.{Error, EndpointId, max_authorized}
use nerves_p2p.Discovery.Validate.{valid_node_name}

abbrev pub AuthorizationTable : Type 0
AuthorizationTable = BTreeMap Bytes

-- `collect`: a later entry for an endpoint replaces an earlier one.
unfoldable pub new : List (EndpointId × Bytes) → Result AuthorizationTable Error
new entries =
    let table = insert_all [] entries in
    if ltb max_authorized (length table) || any (λ e. not (valid_node_name e.1)) table
    then err Error.invalid_record
    else ok table

unfoldable pub authorize :
    AuthorizationTable → EndpointId → Bytes → Result (Unit {0}) Error × AuthorizationTable
authorize t endpoint name =
    if not (valid_node_name name)
      || (not (is_some (get t endpoint)) && nat_eq (length t) max_authorized)
    then (err Error.invalid_record, t)
    else (ok tt, insert t endpoint name)

unfoldable pub revoke : AuthorizationTable → EndpointId → AuthorizationTable
revoke t endpoint = remove t endpoint

unfoldable pub node_name : AuthorizationTable → EndpointId → Option Bytes
node_name t endpoint = get t endpoint

-- The bound on the table, and valid names in it.
pub record IsTable (t : AuthorizationTable) : Type 0 where
  pub sorted : Sorted t
  pub few : length t ≤ max_authorized
  pub names : All (λ e. valid_node_name e.1 ≡ true) t

none_invalid :
    (t : AuthorizationTable)
    → any (λ e. not (valid_node_name e.1)) t ≡ false
    → All (λ e. valid_node_name e.1 ≡ true) t
none_invalid [] h = tt
none_invalid (e ∷ t) h = (ground arith, none_invalid t (ground arith))

-- A table that `new` builds is valid.
pub new-IsTable :
    (entries : List (EndpointId × Bytes)) (t : AuthorizationTable) → new entries ≡ ok t → IsTable t
unfolding new
new-IsTable entries t h =
    let same : insert_all [] entries ≡ t = ground arith in
    record {
      sorted = subst Sorted same (insert_all-Sorted_onto [] entries tt);
      few = ground arith;
      names = none_invalid t (ground arith);
    }

abbrev refuses : AuthorizationTable → EndpointId → Bytes → Bool
refuses t e name =
    not (valid_node_name name) || (not (is_some (get t e)) && nat_eq (length t) max_authorized)

-- An accepted entry fits: it replaces one, or the table was not full.
length-accepted :
    (t : AuthorizationTable) (e : EndpointId) (name : Bytes)
    → IsTable t
    → refuses t e name ≡ false
    → length (insert t e name) ≤ max_authorized
length-accepted t e name v accepted = elim (Option-cases (get t e)) [
  | inl new ↦ ground (arith, length-insert-le t e name, v.few)
  | inr (u, old) ↦ omega (arith, length-insert_old t e name u v.sorted old, v.few)
]

inserted :
    (t : AuthorizationTable) (e : EndpointId) (name : Bytes)
    → IsTable t
    → refuses t e name ≡ false
    → IsTable (insert t e name)
inserted t e name v accepted = record {
  sorted = insert-Sorted t e name v.sorted;
  few = length-accepted t e name v accepted;
  names = All-insert (λ d. valid_node_name d.1 ≡ true) t e name (ground arith) v.names;
}

-- `authorize` keeps the table valid, whether it accepts or not.
pub authorize-IsTable :
    (t : AuthorizationTable) (e : EndpointId) (name : Bytes)
    → IsTable t
    → IsTable (authorize t e name).1
unfolding authorize
authorize-IsTable t e name v = elim (Bool-cases (refuses t e name)) [
  | inl yes_refused ↦ rw yes_refused v
  | inr accepted ↦ rw accepted (inserted t e name v accepted)
]

pub revoke-IsTable : (t : AuthorizationTable) (e : EndpointId) → IsTable t → IsTable (revoke t e)
unfolding revoke
revoke-IsTable t e v = record {
  sorted = remove-Sorted t e v.sorted;
  few = ground (arith, length-remove-le t e, v.few);
  names = All-remove _ t e v.names;
}

-- After `authorize` accepts, the endpoint is enrolled under that name.
pub node_name-authorize :
    (t : AuthorizationTable) (e : EndpointId) (name : Bytes)
    → (authorize t e name).0 ≡ ok tt
    → node_name (authorize t e name).1 e ≡ some name
unfolding authorize node_name
node_name-authorize t e name h = ground (arith, get-insert t e name e, bytes_eq_refl e)
