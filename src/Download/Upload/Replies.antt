-- ===== src/Download/Upload/Replies.antt =====
-- download/upload.go: what the serve loop writes to a peer, as a list of replies.
use stor.Prelude.{
  ℕ, ◌+◌, ◌*◌, ◌≤◌, ◌<◌, Bool, true, false, not, ◌&&◌, [], ◌∷◌, ◌++◌, List, ◌≡◌, refl, ◌∙◌, ap, sym,
  arith, length, take, drop, All, All-append, append_assoc, append-nil, Bool-cases, inl, inr,
}
use stor.Prelude.Words.{Bytes}
use stor.Peer.MsgId
use stor.Peer.Message.{Parsed, ok, err, write, new_piece_message, new_reject_message, parse_have}
use stor.Download.Client.{
  Client, send, send_unchoke, handle_have, safe_bitfield_set, max_request, bare,
}
use stor.Download.Upload.{Shared, refuse}

pub data Reply : Type 0 where
  unchoked : Reply
  rejected : ℕ → ℕ → ℕ → Reply
  served : ℕ → ℕ → Bytes → Reply

unfoldable pub text : List Reply → Bytes
text [] = []
text (unchoked ∷ rs) = write (bare MsgId.unchoke) ++ text rs
text (rejected index begin len ∷ rs) = write (new_reject_message index begin len) ++ text rs
text (served index begin block ∷ rs) = write (new_piece_message index begin block) ++ text rs

-- The bytes of the blocks.
unfoldable pub sum_served : List Reply → ℕ
sum_served [] = 0
sum_served (served index begin block ∷ rs) = length block + sum_served rs
sum_served (_ ∷ rs) = sum_served rs

-- Whether the peer is still choked behind the replies, and whether no block goes to a choked peer.
unfoldable pub still_choking : Bool → List Reply → Bool
still_choking choking [] = choking
still_choking choking (unchoked ∷ rs) = still_choking false rs
still_choking choking (_ ∷ rs) = still_choking choking rs

unfoldable pub is_polite : Bool → List Reply → Bool
is_polite choking [] = true
is_polite choking (unchoked ∷ rs) = is_polite false rs
is_polite choking (rejected index begin len ∷ rs) = is_polite choking rs
is_polite choking (served index begin block ∷ rs) = not choking && is_polite choking rs

module _ (content : Bytes) (tf : Shared) (fast : Bool) where
  -- A block is what the content has at its place, no larger than a block may be; a reject goes to a
  -- peer with the fast extension.
  abbrev pub IsTruthful : Reply → Type 0
  IsTruthful unchoked = Unit
  IsTruthful (rejected index begin len) = fast ≡ true
  IsTruthful (served index begin block) =
      (index < tf.num_pieces)
      × (length block ≤ max_request)
      × (index * tf.piece_len + begin + length block ≤ tf.total)
      × (block ≡ take (length block) (drop (index * tf.piece_len + begin) content))

  -- The client after some replies; `counted` says whether the counter has all the blocks.
  pub record Replied (c c' : Client) (rs : List Reply) (counted : Bool) : Type 0 where
    pub out : c'.out ≡ c.out ++ text rs
    pub truthful : All IsTruthful rs
    pub polite : is_polite c.choking rs ≡ true
    pub choking : c'.choking ≡ false → still_choking c.choking rs ≡ false
    pub counts : counted ≡ true → c'.uploaded ≡ c.uploaded + sum_served rs
    pub same_fast : c'.fast_ext ≡ c.fast_ext

text-append : (rs ss : List Reply) → text (rs ++ ss) ≡ text rs ++ text ss
unfolding text
text-append [] ss = refl
text-append (unchoked ∷ rs) ss =
    rw (text-append rs ss, append_assoc (write (bare MsgId.unchoke)) (text rs) (text ss)) refl
text-append (rejected index begin len ∷ rs) ss =
    rw
      (
        text-append rs ss,
        append_assoc (write (new_reject_message index begin len)) (text rs) (text ss),
      )
      refl
text-append (served index begin block ∷ rs) ss =
    rw
      (
        text-append rs ss,
        append_assoc (write (new_piece_message index begin block)) (text rs) (text ss),
      )
      refl

sum_served-append : (rs ss : List Reply) → sum_served (rs ++ ss) ≡ sum_served rs + sum_served ss
unfolding sum_served
sum_served-append [] ss = omega arith
sum_served-append (unchoked ∷ rs) ss = sum_served-append rs ss
sum_served-append (rejected index begin len ∷ rs) ss = sum_served-append rs ss
sum_served-append (served index begin block ∷ rs) ss = omega (arith, sum_served-append rs ss)

still_choking-append :
    (b : Bool) (rs ss : List Reply)
    → still_choking b (rs ++ ss) ≡ still_choking (still_choking b rs) ss
unfolding still_choking
still_choking-append b [] ss = refl
still_choking-append b (unchoked ∷ rs) ss = still_choking-append false rs ss
still_choking-append b (rejected index begin len ∷ rs) ss = still_choking-append b rs ss
still_choking-append b (served index begin block ∷ rs) ss = still_choking-append b rs ss

is_polite-append :
    (b : Bool) (rs ss : List Reply)
    → is_polite b (rs ++ ss) ≡ (is_polite b rs && is_polite (still_choking b rs) ss)
unfolding is_polite still_choking
is_polite-append b [] ss = refl
is_polite-append b (unchoked ∷ rs) ss = is_polite-append false rs ss
is_polite-append b (rejected index begin len ∷ rs) ss = is_polite-append b rs ss
is_polite-append b (served index begin block ∷ rs) ss = ground (arith, is_polite-append b rs ss)

-- What may go to a choked peer may go to one that is not.
is_polite_weaken : (rs : List Reply) → is_polite true rs ≡ true → is_polite false rs ≡ true
unfolding is_polite
is_polite_weaken [] h = refl
is_polite_weaken (unchoked ∷ rs) h = h
is_polite_weaken (rejected index begin len ∷ rs) h = is_polite_weaken rs h
is_polite_weaken (served index begin block ∷ rs) h = ground (arith, h)

still_choking-false : (rs : List Reply) → still_choking false rs ≡ false
unfolding still_choking
still_choking-false [] = refl
still_choking-false (unchoked ∷ rs) = still_choking-false rs
still_choking-false (rejected index begin len ∷ rs) = still_choking-false rs
still_choking-false (served index begin block ∷ rs) = still_choking-false rs

-- The state after the first replies is choked at most where the client is.
join_polite :
    (b c : Bool) (ss : List Reply)
    → (c ≡ false → b ≡ false)
    → is_polite c ss ≡ true
    → is_polite b ss ≡ true
join_polite true true ss h p = p
join_polite true false ss h p = ground (arith, h refl)
join_polite false true ss h p = is_polite_weaken ss p
join_polite false false ss h p = p

join_choking :
    (b c : Bool) (ss : List Reply)
    → (c ≡ false → b ≡ false)
    → still_choking c ss ≡ false
    → still_choking b ss ≡ false
join_choking true true ss h p = p
join_choking true false ss h p = ground (arith, h refl)
join_choking false c ss h p = still_choking-false ss

module _ (content : Bytes) (tf : Shared) (fast : Bool) where
  pub Replied-nothing :
      (c c' : Client)
      → c'.out ≡ c.out
      → c'.choking ≡ c.choking
      → c'.uploaded ≡ c.uploaded
      → c'.fast_ext ≡ c.fast_ext
      → Replied content tf fast c c' [] true
  unfolding text is_polite still_choking sum_served
  Replied-nothing c c' out choking uploaded same = record {
    out = rw append-nil out;
    truthful = tt;
    polite = refl;
    choking = λ e. cc;
    counts = λ e. omega arith;
    same_fast = same;
  }

  pub Replied-then :
      (c c' d : Client) (rs ss : List Reply) (counted : Bool)
      → Replied content tf fast c c' rs true
      → Replied content tf fast c' d ss counted
      → Replied content tf fast c d (rs ++ ss) counted
  Replied-then c c' d rs ss counted r s = record {
    out =
        rw (text-append rs ss)
          (s.out ∙ (ap (λ o. o ++ text ss) r.out ∙ append_assoc c.out (text rs) (text ss)));
    truthful = All-append _ rs ss r.truthful s.truthful;
    polite = ground (
      arith,
      is_polite-append c.choking rs ss,
      r.polite,
      join_polite (still_choking c.choking rs) c'.choking ss r.choking s.polite,
    );
    choking = λ e.
        still_choking-append c.choking rs ss
        ∙ join_choking (still_choking c.choking rs) c'.choking ss r.choking (s.choking e);
    counts = λ e. omega (arith, sum_served-append rs ss, s.counts e, r.counts refl);
    same_fast = s.same_fast ∙ r.same_fast;
  }

  pub handle_have-Replied :
      (payload : Bytes) (c : Client) → Replied content tf fast c (handle_have payload c) [] true
  unfolding handle_have safe_bitfield_set
  handle_have-Replied payload c = by_parsed (parse_have payload)
    where
      by_parsed :
          (p : Parsed ℕ)
          → Replied content tf fast c
              (elim p [ ok index ↦ safe_bitfield_set c index | err e ↦ c ])
              []
              true
      by_parsed (err e) = Replied-nothing c c refl refl refl refl
      by_parsed (ok index) = elim (Bool-cases c.have_all) [
        | inl e ↦ simp e (Replied-nothing c c refl refl refl refl)
        | inr e ↦ simp e (Replied-nothing c _ refl refl refl refl)
      ]

  pub send_unchoke-Replied :
      (takes : Bytes → Bool) (c : Client)
      → (rs : List Reply) × Replied content tf fast c (send_unchoke takes c).0 rs true
  unfolding send_unchoke send text is_polite still_choking sum_served
  send_unchoke-Replied takes c = elim (Bool-cases c.choking) [
    | inr e ↦ ([], simp e (Replied-nothing c c refl refl refl refl))
    | inl e ↦ (
      unchoked ∷ [],
      elim (Bool-cases (takes (c.out ++ write (bare MsgId.unchoke)))) [
        | inl y ↦
            simp (e, y)
              (record {
                out = rw append-nil refl;
                truthful = (tt, tt);
                polite = refl;
                choking = λ h. refl;
                counts = λ h. omega arith;
                same_fast = refl;
              })
        | inr y ↦
            simp (e, y)
              (record {
                out = rw append-nil refl;
                truthful = (tt, tt);
                polite = refl;
                choking = λ h. refl;
                counts = λ h. omega arith;
                same_fast = refl;
              })
      ],
    )
  ]

  pub refuse-Replied :
      (p : Parsed (ℕ × ℕ × ℕ)) (c : Client)
      → c.fast_ext ≡ fast
      → c.choking ≡ true
      → (rs : List Reply) × Replied content tf fast c (refuse p c) rs true
  unfolding refuse text is_polite still_choking sum_served
  refuse-Replied (err e) c is_fast choked = ([], Replied-nothing c c refl refl refl refl)
  refuse-Replied (ok (index, begin, len)) c is_fast choked = elim (Bool-cases c.fast_ext) [
    | inr e ↦ ([], simp e (Replied-nothing c c refl refl refl refl))
    | inl e ↦ (
      rejected index begin len ∷ [],
      simp e (record {
        out = rw append-nil refl;
        truthful = (ground (arith, e, is_fast), tt);
        polite = refl;
        choking = λ h. h;
        counts = λ h. omega arith;
        same_fast = sym e;
      }),
    )
  ]
