-- ===== src/Download/PeerManager/Rechoked.antt =====
-- download/peermgr.go: who is choked after rechoke.
use stor.Prelude.{
  ℕ, zero, suc, ◌+◌, ◌-◌, ◌≤◌, ◌<◌, Bool, true, false, not, if◌then◌else◌, ◌==◌, ◌||◌, ltb, [], ◌∷◌,
  List, Option, none, some, ◌≡◌, refl, ◌∙◌, arith, length, get_or, Bool-cases, inl, inr,
}
use stor.Prelude.Words.{Bytes}
use stor.Download.Client.{Client, send, send_choke, send_unchoke}
use stor.Download.PeerManager.{
  Heap, put_client, PeerManager, is_peer, contains, reset_all, choke_ranked, rechoke,
}

-- No peer is there twice.
unfoldable pub Distinct : List ℕ → Type 0
Distinct [] = Unit
Distinct (p ∷ ps) = (contains p ps ≡ false) × Distinct ps

-- The ranking is by descending speed.
abbrev pub Descending : (ℕ → ℕ) → List ℕ → Type 0
Descending speed ps =
    (i j : ℕ) → i < j → j < length ps → speed (get_or ps j 0) ≤ speed (get_or ps i 0)

unfoldable pub count_unchoked : Heap → List ℕ → ℕ
count_unchoked heap [] = 0
count_unchoked heap (p ∷ ps) = (if (heap p).choking then 0 else 1) + count_unchoked heap ps

unchoke-choking :
    (takes : Bytes → Bool) (c : Client)
    → ((b : Bytes) → takes b ≡ true)
    → (send_unchoke takes c).0.choking ≡ false
unfolding send_unchoke send
unchoke-choking takes c all = elim (Bool-cases c.choking) [ inl e ↦ simp (e, all) | inr e ↦ simp e ]

choke-choking :
    (takes : Bytes → Bool) (c : Client)
    → ((b : Bytes) → takes b ≡ true)
    → (send_choke takes c).0.choking ≡ true
unfolding send_choke send
choke-choking takes c all = elim (Bool-cases c.choking) [ inl e ↦ simp e | inr e ↦ simp (e, all) ]

one_more :
    (choking optimistic : Bool) (i slots rest more all : ℕ)
    → choking ≡ not (ltb i slots || optimistic)
    → rest ≤ slots - (i + 1) + more
    → (if optimistic then 1 else 0) + more ≤ all
    → (if choking then 0 else 1) + rest ≤ slots - i + all
one_more choking optimistic i slots rest more all h r m = ground arith

module _ (takes : ℕ → Bytes → Bool) (takes_all : (p : ℕ) (b : Bytes) → takes p b ≡ true)
    (pm : PeerManager) where
  choke_ranked_other :
      (i : ℕ) (ps : List ℕ) (heap : Heap) (q : ℕ)
      → contains q ps ≡ false
      → choke_ranked takes pm i ps heap q ≡ heap q
  unfolding choke_ranked contains put_client
  choke_ranked_other i [] heap q h = refl
  choke_ranked_other i (p ∷ ps) heap q h =
      choke_ranked_other (i + 1) ps _ q (ground (arith, h)) ∙ ground (arith, h)

  stays : ℕ → ℕ → Bool
  stays i p = ltb i pm.unchoke_slots || is_peer pm.optimistic_peer p

  turned : ℕ → ℕ → Heap → Client
  turned i p heap =
      if stays i p then (send_unchoke (takes p) (heap p)).0 else (send_choke (takes p) (heap p)).0

  turned_choking : (i p : ℕ) (heap : Heap) → (turned i p heap).choking ≡ not (stays i p)
  unfolding turned
  turned_choking i p heap = elim (Bool-cases (stays i p)) [
    | inl e ↦ simp (e, unchoke-choking (takes p) (heap p) (takes_all p))
    | inr e ↦ simp (e, choke-choking (takes p) (heap p) (takes_all p))
  ]

  -- The first of the peers, after the loop over it and the others.
  first_choking :
      (i p : ℕ) (ps : List ℕ) (heap : Heap)
      → contains p ps ≡ false
      → (choke_ranked takes pm i (p ∷ ps) heap p).choking ≡ not (stays i p)
  unfolding choke_ranked put_client turned stays
  first_choking i p ps heap alone =
      let same : (p == p) ≡ true = ground arith in
      rw (choke_ranked_other (i + 1) ps (put_client p (turned i p heap) heap) p alone, same)
        (turned_choking i p heap)

  ranked_choking :
      (i : ℕ) (ps : List ℕ) (heap : Heap) (j : ℕ)
      → Distinct ps
      → j < length ps
      → (choke_ranked takes pm i ps heap (get_or ps j 0)).choking
        ≡ not (stays (i + j) (get_or ps j 0))
  unfolding Distinct choke_ranked
  ranked_choking i [] heap j d l = absurd (omega arith)
  ranked_choking i (p ∷ ps) heap zero d l =
      let e : i + 0 ≡ i = omega arith in rw e (first_choking i p ps heap d.0)
  ranked_choking i (p ∷ ps) heap (suc j) d l =
      let e : i + suc j ≡ i + 1 + j = omega arith in
      rw e (ranked_choking (i + 1) ps _ j d.1 (omega arith))

  optimistic_in : List ℕ → ℕ
  optimistic_in ps = elim pm.optimistic_peer [ none ↦ 0 | some q ↦ if contains q ps then 1 else 0 ]

  optimistic_first :
      (p : ℕ) (ps : List ℕ)
      → contains p ps ≡ false
      → (if is_peer pm.optimistic_peer p then 1 else 0) + optimistic_in ps ≤ optimistic_in (p ∷ ps)
  unfolding optimistic_in contains
  optimistic_first p ps alone = by_peer pm.optimistic_peer
    where
      by_peer :
          (o : Option ℕ)
          → (if is_peer o p then 1 else 0)
              + elim o [ none ↦ 0 | some q ↦ if contains q ps then 1 else 0 ]
            ≤ elim o [ none ↦ 0 | some q ↦ if contains q (p ∷ ps) then 1 else 0 ]
      by_peer none = omega arith
      by_peer (some q) = elim (Bool-cases (p == q)) [
        | inl e ↦
            let same : p ≡ q = ground (arith, e) in
            let out : contains q ps ≡ false = rw (← same) alone in rw (e, out) (omega arith)
        | inr e ↦ ground (arith, e)
      ]

  count_ranked :
      (i : ℕ) (ps : List ℕ) (heap : Heap)
      → Distinct ps
      → count_unchoked (choke_ranked takes pm i ps heap) ps
        ≤ pm.unchoke_slots - i + optimistic_in ps
  unfolding Distinct count_unchoked choke_ranked stays turned
  count_ranked i [] heap d = omega arith
  count_ranked i (p ∷ ps) heap d =
      let ih = count_ranked (i + 1) ps (put_client p (turned i p heap) heap) d.1 in
      let first = first_choking i p ps heap d.0 in
      let one = optimistic_first p ps d.0 in
      one_more (choke_ranked takes pm i (p ∷ ps) heap p).choking (is_peer pm.optimistic_peer p) i
        pm.unchoke_slots _ (optimistic_in ps) (optimistic_in (p ∷ ps)) first ih one

  optimistic_in_one : (ps : List ℕ) → optimistic_in ps ≤ 1
  unfolding optimistic_in
  optimistic_in_one ps = ground arith

-- What rechoke leaves: at most one peer more than there are slots is unchoked, those of the first
-- slots are, and none that is choked was faster than one that is not, but for the optimistic one.
pub record Fair (pm : PeerManager) (speed : ℕ → ℕ) (ranked : List ℕ) (heap : Heap) : Type 0 where
  pub few : count_unchoked heap ranked ≤ suc pm.unchoke_slots
  pub first :
      (i : ℕ)
      → i < length ranked
      → i < pm.unchoke_slots
      → (heap (get_or ranked i 0)).choking ≡ false
  pub fastest :
      (i j : ℕ)
      → i < length ranked
      → j < length ranked
      → (heap (get_or ranked i 0)).choking ≡ false
      → (heap (get_or ranked j 0)).choking ≡ true
      → is_peer pm.optimistic_peer (get_or ranked i 0) ≡ false
      → speed (get_or ranked j 0) ≤ speed (get_or ranked i 0)

-- Where the sorting gives every peer once, by descending speed, and the connections take what is
-- written, rechoke is fair.
pub rechoke-Fair :
    (takes : ℕ → Bytes → Bool) (sort : (ℕ → ℕ) → List ℕ → List ℕ) (speed : ℕ → ℕ) (pm : PeerManager)
    (heap : Heap)
    → ((p : ℕ) (b : Bytes) → takes p b ≡ true)
    → Distinct (sort speed pm.peers)
    → Descending speed (sort speed pm.peers)
    → Fair pm speed (sort speed pm.peers) (rechoke takes sort speed pm heap)
unfolding rechoke stays
rechoke-Fair takes sort speed pm heap takes_all distinct descending =
    let ranked = sort speed pm.peers in
    let start = reset_all pm.peers heap in
    let at = ranked_choking takes takes_all pm 0 ranked start in
    record {
      few = omega (
        arith,
        count_ranked takes takes_all pm 0 ranked start distinct,
        optimistic_in_one takes takes_all pm ranked,
      );
      first = λ i l slot. ground (arith, at i distinct l);
      fastest = λ i j li lj free shut plain.
          let slot_i = at i distinct li in
          let slot_j = at j distinct lj in
          let lt : i < j = ground (arith, slot_i, slot_j, free, shut, plain) in
          descending i j lt lj;
    }
