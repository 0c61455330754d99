-- ===== src/Download/PeerManager.antt =====
-- download/peermgr.go: the choking of peers. A *Client is the number of its place in a heap. The
-- speeds and sort.Slice are arguments, and so is what the connection of each client takes; the
-- events on the bus are left out. Each method is one step, as its lock makes it.
pub mod Rechoked
use stor.Prelude.{
  ℕ, zero, suc, ◌+◌, ◌-◌, ◌%◌, Bool, true, false, if◌then◌else◌, ◌==◌, ◌||◌, ltb, [], ◌∷◌, ◌++◌,
  List, Option, none, some, length, get_or,
}
use stor.Prelude.Words.{Bytes}
use stor.Download.Client.{Client, send_choke, send_unchoke, send_have}

abbrev pub default_unchoke_slots : ℕ
default_unchoke_slots = 8

abbrev pub Heap : Type 0
Heap = ℕ → Client

unfoldable pub put_client : ℕ → Client → Heap → Heap
put_client p c heap q = if q == p then c else heap q

pub record PeerManager : Type 0 where
  pub peers : List ℕ
  pub unchoke_slots : ℕ
  pub optimistic_peer : Option ℕ

-- A number of slots that is not positive is the default.
unfoldable pub new_peer_manager : ℕ → PeerManager
new_peer_manager slots = record {
  peers = [];
  unchoke_slots = if slots == 0 then default_unchoke_slots else slots;
  optimistic_peer = none;
}

unfoldable pub register : ℕ → PeerManager → PeerManager
register p pm = record pm { peers = pm.peers ++ p ∷ [] }

abbrev pub is_peer : Option ℕ → ℕ → Bool
is_peer none p = false
is_peer (some q) p = p == q

unfoldable pub delete_first : ℕ → List ℕ → List ℕ
delete_first p [] = []
delete_first p (q ∷ qs) = let rest = delete_first p qs in if q == p then qs else q ∷ rest

unfoldable pub contains : ℕ → List ℕ → Bool
contains p [] = false
contains p (q ∷ qs) = q == p || contains p qs

unfoldable pub unregister : ℕ → PeerManager → PeerManager
unfolding delete_first contains
unregister p pm =
    if contains p pm.peers
    then record pm {
      peers = delete_first p pm.peers;
      optimistic_peer = if is_peer pm.optimistic_peer p then none else pm.optimistic_peer;
    }
    else pm

abbrev pub reset_speed : Client → Client
reset_speed c = record c { downloaded = 0; uploaded = 0 }

unfoldable pub reset_all : List ℕ → Heap → Heap
unfolding put_client
reset_all [] heap = heap
reset_all (p ∷ ps) heap = reset_all ps (put_client p (reset_speed (heap p)) heap)

module _ (takes : ℕ → Bytes → Bool) where
  -- The loop over the ranked peers, from the place `i` on.
  unfoldable pub choke_ranked : PeerManager → ℕ → List ℕ → Heap → Heap
  unfolding put_client
  choke_ranked pm i [] heap = heap
  choke_ranked pm i (p ∷ ps) heap =
      let c =
        if ltb i pm.unchoke_slots || is_peer pm.optimistic_peer p
        then (send_unchoke (takes p) (heap p)).0
        else (send_choke (takes p) (heap p)).0 in
      choke_ranked pm (i + 1) ps (put_client p c heap)

  -- `sort speed` orders peers by descending speed.
  unfoldable pub rechoke : ((ℕ → ℕ) → List ℕ → List ℕ) → (ℕ → ℕ) → PeerManager → Heap → Heap
  unfolding choke_ranked reset_all
  rechoke sort speed pm heap = choke_ranked pm 0 (sort speed pm.peers) (reset_all pm.peers heap)

  -- The search for the next choked peer, `n` of the places being left.
  unfoldable pub rotate_from : ℕ → ℕ → PeerManager → Heap → Option ℕ
  rotate_from zero idx pm heap = none
  rotate_from (suc n) idx pm heap =
      let later = rotate_from n (idx + 1) pm heap in
      if (heap (get_or pm.peers (idx % length pm.peers) 0)).choking
      then some (idx % length pm.peers)
      else later

  -- The new index comes with the state.
  unfoldable pub rotate_optimistic : ℕ → PeerManager → Heap → PeerManager × Heap × ℕ
  unfolding rotate_from put_client
  rotate_optimistic start pm heap = elim (rotate_from (length pm.peers) start pm heap) [
    | some idx ↦
        let p = get_or pm.peers idx 0 in
        (
          record pm { optimistic_peer = some p },
          put_client p (send_unchoke (takes p) (heap p)).0 heap,
          (idx + 1) % length pm.peers,
        )
    | none ↦ (pm, heap, if length pm.peers == 0 then 0 else start)
  ]

  unfoldable pub broadcast_have : ℕ → List ℕ → Heap → Heap
  unfolding put_client
  broadcast_have index [] heap = heap
  broadcast_have index (p ∷ ps) heap =
      broadcast_have index ps (put_client p (send_have (takes p) index (heap p)).0 heap)
