-- ===== src/Session/Accept.antt =====
-- The connections that a node accepts (`accept_thread` of src/net.c).
use mini_coin_slovak.Base.{
  ℕ, zero, suc, ◌-◌, ◌<◌, ◌≤◌, ◌≡◌, refl, sym, ap, ◌∙◌, List, [], ◌∷◌, ◌++◌, map, arith, length,
  length-append, take, leb, leb_iff, append_assoc, append-nil, Bool-cases, inl, inr,
}
use mini_coin_slovak.Run.{Status}
use mini_coin_slovak.Net.{Peer, NodeState, Sends, max_peers, add_peer}
use mini_coin_slovak.Session.{Accepted, accept_thread}
use mini_coin_slovak.Session.Connect.{new_peer, add_peer-joins, add_peer-full}

abbrev pub accepted_peer : Accepted → Peer
accepted_peer client = new_peer client.client_fd client.host client.port

-- The first connections that there is room for.
abbrev pub taken : List Peer → List Accepted → List Peer
taken peers clients = map accepted_peer (take (max_peers - length peers) clients)

taken-full :
    (peers : List Peer) (clients : List Accepted)
    → max_peers ≤ length peers
    → taken peers clients ≡ []
taken-full peers clients full =
    let none_left : max_peers - length peers ≡ 0 = omega arith in rw none_left refl

taken-cons :
    (peers : List Peer) (client : Accepted) (clients : List Accepted)
    → length peers < max_peers
    → taken peers (client ∷ clients)
      ≡ accepted_peer client ∷ taken (peers ++ (accepted_peer client ∷ [])) clients
taken-cons peers client clients room =
    let one_more : max_peers - length peers
        ≡ suc (max_peers - length (peers ++ (accepted_peer client ∷ []))) =
      omega (arith, length-append peers (accepted_peer client ∷ [])) in
    rw one_more refl

take-nil {ℓ} : {A : Type ℓ} (n : ℕ) → ◌≡◌ {A = List A} (take n []) []
take-nil zero = refl
take-nil (suc n) = refl

abbrev with_table : NodeState → List Peer → NodeState
with_table node peers = record node { peers = peers }

after :
    (node : NodeState) (client : Accepted) (clients : List Accepted)
    {r : Status × NodeState × Sends}
    → add_peer node client.client_fd client.host client.port ≡ r
    → (accept_thread node (client ∷ clients)).0 ≡ (accept_thread r.1 clients).0
unfolding accept_thread
after node client clients e =
    ap (λ (r : Status × NodeState × Sends). (accept_thread r.1 clients).0) e

-- Of the connections that come, the first ones for which there is room are put at the end of the table,
-- in their order; all later ones are refused. The chain and the mempool stay as they are.
pub accept_thread-takes :
    (node : NodeState) (clients : List Accepted)
    → (accept_thread node clients).0
      ≡ record node { peers = node.peers ++ taken node.peers clients }
unfolding accept_thread
accept_thread-takes node [] = ap (with_table node) (
    sym (
      ap (λ ps. node.peers ++ map accepted_peer ps) (take-nil (max_peers - length node.peers))
      ∙ append-nil node.peers))
accept_thread-takes node (client ∷ clients) =
    elim (Bool-cases (leb max_peers (length node.peers))) [
      | inl at_limit ↦
          let full : max_peers ≤ length node.peers = (leb_iff _ _).0 at_limit in
          after node client clients
            (add_peer-full node client.client_fd client.host client.port full)
          ∙ accept_thread-takes node clients
          ∙ ap (λ ps. with_table node (node.peers ++ ps))
              (taken-full node.peers clients full
                ∙ sym (taken-full node.peers (client ∷ clients) full))
      | inr free ↦
          let room : length node.peers < max_peers = ground arith in
          let peer = accepted_peer client in
          after node client clients
            (add_peer-joins node client.client_fd client.host client.port room)
          ∙ accept_thread-takes (with_table node (node.peers ++ (peer ∷ []))) clients
          ∙ ap (with_table node) (
              append_assoc node.peers (peer ∷ []) (taken (node.peers ++ (peer ∷ [])) clients)
              ∙ ap (λ ps. node.peers ++ ps) (sym (taken-cons node.peers client clients room)))
    ]
