-- ===== src/Network/Peers/Concurrent.antt =====
-- `add_peer` from several threads under `peer_mutex`, beside readers that hold it shared
-- (`get_active_peers`, `get_peer_address`, `send_message`).
use synledger_core.Locks.{Program, finish, look, act, exec, serial, System, Execution, all_waiting}
use synledger_core.Locks.Serial.{Execution-IsSerial, Execution-serial}
use synledger_core.Network.Peers.{
  P2PProtocol, new_protocol, add_peer, get_active_peers, get_peer_address, IsListed,
  add_peer-IsListed, get_peer_address-add_peer,
}
use synledger_core.Prelude.{
  count, nat_eq, text_key, contains, insert, contains-insert, ltb, ◌==◌, if◌then◌else◌, ==_iff,
  Bool-cases, Text, codes, ℕ, ◌<◌, ◌≡◌, refl, sym, ap, ◌∙◌, ◌⊎◌, inl, inr, not, ◌||◌, none, List,
  [], ◌∷◌, ◌++◌, arith, contains-eq-lookup, ◌+◌,
}
use synledger_core.Prelude.Bag.{bag, bag-eq}
use synledger_core.Prelude.Totals.{total-perm}

-- The test for the peer, and the two writes.
unfoldable pub add_peer_program : ℕ × Text → Program P2PProtocol (Unit {0})
add_peer_program (peer_node_id, peer_address) = look λ s.
    if not (contains peer_node_id s.peer_addresses)
    then act (λ t. record t { peers = t.peers ++ (peer_node_id ∷ []) })
        (act (λ t. record t { peer_addresses = insert peer_node_id peer_address t.peer_addresses })
          (finish tt))
    else finish tt

-- A call by itself does what the method does.
exec-add_peer_program :
    (k : ℕ) (address : Text) (s : P2PProtocol)
    → (exec (add_peer_program (k, address)) s).0 ≡ add_peer k address s
unfolding exec add_peer_program add_peer
exec-add_peer_program k address s = elim (Bool-cases (contains k s.peer_addresses)) [
  | inl there ↦ rw (there, exec, add_peer_program, add_peer) refl
  | inr new ↦ rw (new, exec, add_peer_program, add_peer) refl
]

-- Calls one after the other.
unfoldable pub add_peers : List (ℕ × Text) → P2PProtocol → P2PProtocol
unfolding add_peer
add_peers [] s = s
add_peers ((k, address) ∷ calls) s = add_peers calls (add_peer k address s)

serial-add_peer_program :
    (calls : List (ℕ × Text)) (s : P2PProtocol)
    → (serial add_peer_program calls s).0 ≡ add_peers calls s
unfolding serial add_peers
serial-add_peer_program [] s = refl
serial-add_peer_program ((k, address) ∷ calls) s =
    ap (λ t. (serial add_peer_program calls t).0) (exec-add_peer_program k address s)
    ∙ serial-add_peer_program calls (add_peer k address s)

-- The peers that the calls name, and the address that a peer is first given.
abbrev pub named : List (ℕ × Text) → List ℕ
named [] = []
named ((k, address) ∷ calls) = k ∷ named calls

abbrev pub first_address : ℕ → List (ℕ × Text) → Text
first_address j [] = codes "Unknown"
first_address j ((k, address) ∷ calls) = if k == j then address else first_address j calls

count-named :
    (a : ℕ) (c : ℕ × Text) (cs : List (ℕ × Text))
    → count a (named (c ∷ cs)) ≡ count a (c.0 ∷ []) + count a (named cs)
count-named a c cs = omega arith

add_peers-IsListed :
    (calls : List (ℕ × Text)) (s : P2PProtocol) → IsListed s → IsListed (add_peers calls s)
unfolding add_peers
add_peers-IsListed [] s h = h
add_peers-IsListed ((k, address) ∷ calls) s h =
    add_peers-IsListed calls (add_peer k address s) (add_peer-IsListed k address s h)

contains-add_peer :
    (k j : ℕ) (address : Text) (s : P2PProtocol)
    → contains j (add_peer k address s).peer_addresses ≡ (k == j || contains j s.peer_addresses)
unfolding add_peer
contains-add_peer k j address s =
    ground (arith, ==_iff k j, contains-insert k j address s.peer_addresses)

contains-add_peers :
    (calls : List (ℕ × Text)) (s : P2PProtocol) (j : ℕ)
    → contains j (add_peers calls s).peer_addresses
      ≡ (ltb 0 (count j (named calls)) || contains j s.peer_addresses)
unfolding add_peers
contains-add_peers [] s j = ground arith
contains-add_peers ((k, address) ∷ calls) s j =
    ground
      (arith, contains-add_peers calls (add_peer k address s) j, contains-add_peer k j address s)

get_peer_address-add_peers :
    (calls : List (ℕ × Text)) (s : P2PProtocol) (j : ℕ)
    → get_peer_address j (add_peers calls s)
      ≡ (if contains j s.peer_addresses then get_peer_address j s else first_address j calls)
unfolding add_peers get_peer_address
get_peer_address-add_peers [] s j = ground (arith, contains-eq-lookup j s.peer_addresses)
get_peer_address-add_peers ((k, address) ∷ calls) s j = ground (
  arith,
  ==_iff k j,
  get_peer_address-add_peers calls (add_peer k address s) j,
  contains-add_peer k j address s,
  get_peer_address-add_peer k j address s,
)

-- However threads interleave that add peers to a new protocol and that read it, when nobody is inside, or
-- somebody reads, a peer is listed if one of the calls so far has named it, once, and its address is the
-- one that it was first given; and the calls so far, with those that wait, name what all calls name.
pub Execution-add_peers :
    (node_id : ℕ) (network_address : Text) (calls : List (ℕ × Text)) (j : ℕ)
    {s : System P2PProtocol (Unit {0}) (ℕ × Text)}
    → Execution add_peer_program (all_waiting (new_protocol node_id network_address) calls) s
    → (s.inside ≡ none) ⊎ (0 < s.readers)
    → (count j (get_active_peers s.shared) ≡ (if ltb 0 (count j (named s.entered)) then 1 else 0))
      × (get_peer_address j s.shared ≡ first_address j s.entered)
      × (bag (named (s.entered ++ s.waiting)) ≡ bag (named calls))
unfolding contains get_active_peers
Execution-add_peers node_id network_address calls j {s} r seen =
    let fresh = new_protocol node_id network_address in
    let same : add_peers s.entered fresh ≡ s.shared =
      sym (serial-add_peer_program s.entered fresh)
      ∙ ap (λ x. x.0) (Execution-serial add_peer_program fresh calls r seen) in
    let order = (Execution-IsSerial add_peer_program fresh calls r).order in
    let listed = add_peers-IsListed s.entered fresh (λ k. refl) j in
    (
      ap (λ t. count j (get_active_peers t)) (sym same)
          ∙ listed
          ∙ ap (λ b. if b then 1 else 0) (contains-add_peers s.entered fresh j ∙ ground arith),
      ap (get_peer_address j) (sym same) ∙ get_peer_address-add_peers s.entered fresh j,
      bag-eq (named (s.entered ++ s.waiting)) (named calls) (λ a.
          total-perm (λ cs. count a (named cs)) (λ c. count a (c.0 ∷ [])) (count-named a) order),
    )
