-- ===== src/Bitswap/Concurrent/Sound.antt =====
-- The calls of `HandlePeer` side by side: what each step keeps.
use ipfs_crawler.Prelude.{
  on_ite, ◌≡◌, refl, sym, subst, Bool, true, false, List, Option, none, some, All, text_dec,
  is_some, arith, inl, inr, Bool-cases, not, ◌&&◌,
}
use ipfs_crawler.Panic.{Returns, ok}
use ipfs_crawler.Types.{PeerId, ProtocolId}
use ipfs_crawler.GoMap.{contains, lookup, insert, delete}
use ipfs_crawler.GoMap.Laws.{lookup-insert, lookup-delete, contains-add, contains-remove}
use ipfs_crawler.Bitswap.{Cid, Answers, ProbeResult, to_result, protocol_strings}
use ipfs_crawler.Bitswap.Collected.{IsSplit}
use ipfs_crawler.Bitswap.Query.{register_peer, unregister_peer, Read}
use ipfs_crawler.Bitswap.Concurrent.{
  Phase, querying, collecting, leaving, ProbeState, set_phase, begin_call, leave, end_query,
  end_call, queried_on, is_querying,
}

-- The result splits the configured CIDs into those that were answered and those that were not.
abbrev pub IsDivided : List Cid → Option ProbeResult → Type 0
IsDivided cids none = Unit
IsDivided cids (some r) = (st : Answers) × IsSplit cids st × (r ≡ to_result st)

abbrev pub IsGoodPhase : List Cid → Option Phase → Type 0
IsGoodPhase cids none = Unit
IsGoodPhase cids (some querying) = Unit
IsGoodPhase cids (some (collecting st)) = IsSplit cids st
IsGoodPhase cids (some (leaving o)) = IsDivided cids o

abbrev pub IsHeld : List PeerId → Option (PeerId × Read) → Type 0
IsHeld receivers none = Unit
IsHeld receivers (some (p, r)) = contains text_dec p receivers ≡ true

-- A receiver has a call under way and an open channel, a handler that sends has a receiver, and the answers are divided.
pub record IsSound (s : ProbeState) : Type 0 where
  pub inside :
      (k : PeerId)
      → contains text_dec k s.receivers ≡ true
      → is_some (lookup text_dec k s.active) ≡ true
  pub unclosed :
      (k : PeerId) → contains text_dec k s.receivers ≡ true → contains text_dec k s.closed ≡ false
  pub held : IsHeld s.receivers s.pending
  pub phases : (k : PeerId) → IsGoodPhase s.cids (lookup text_dec k s.active)
  pub divided : All (λ e. IsDivided s.cids e.1) s.results

abbrev pub IsSoundIf : Option ProbeState → Type 0
IsSoundIf none = Unit
IsSoundIf (some t) = IsSound t

module _ (cids : List Cid) (m : List (PeerId × Phase))
    (good : (k : PeerId) → IsGoodPhase cids (lookup text_dec k m)) where
  pub insert-IsGoodPhase :
      (p : PeerId) (v : Phase)
      → IsGoodPhase cids (some v)
      → (k : PeerId) → IsGoodPhase cids (lookup text_dec k (insert text_dec p v m))
  insert-IsGoodPhase p v h k =
      subst (IsGoodPhase cids) (sym (lookup-insert text_dec k p v m))
        (on_ite (IsGoodPhase cids) (text_dec p k) h (good k))

  delete-IsGoodPhase : (p k : PeerId) → IsGoodPhase cids (lookup text_dec k (delete text_dec p m))
  delete-IsGoodPhase p k =
      subst (IsGoodPhase cids) (sym (lookup-delete text_dec k p m))
        (on_ite (IsGoodPhase cids) (text_dec p k) tt (good k))

and_not : (a b : Bool) → b ≡ true → (a && not b) ≡ false
and_not true b e = rw e refl
and_not false b e = refl

-- With a protocol that was asked for.
pub queried_on-fit :
    (s : ProbeState) (p : PeerId) (protocol : ProtocolId) (v : Phase) (phase : Option Phase)
    → contains text_dec protocol protocol_strings ≡ true
    → queried_on s p protocol v phase ≡ ok (end_query s p v phase)
unfolding queried_on
queried_on-fit s p protocol v phase fit =
    rw (queried_on, and_not (is_querying phase) (contains text_dec protocol protocol_strings) fit)
      refl

module _ (s : ProbeState) (h : IsSound s) where
  pub set_phase-IsSound :
      (p : PeerId) (v : Phase) → IsGoodPhase s.cids (some v) → IsSound (set_phase s p v)
  unfolding set_phase
  set_phase-IsSound p v g = record {
    inside = λ k i. ground (arith, h.inside k i, lookup-insert text_dec k p v s.active);
    unclosed = h.unclosed;
    held = h.held;
    phases = insert-IsGoodPhase s.cids s.active h.phases p v g;
    divided = h.divided;
  }

  pub leave-IsSound :
      (p : PeerId) (phase : Option Phase)
      → lookup text_dec p s.active ≡ phase
      → IsSoundIf (leave s p phase)
  unfolding leave
  leave-IsSound p none q = tt
  leave-IsSound p (some querying) q = tt
  leave-IsSound p (some (leaving o)) q = tt
  leave-IsSound p (some (collecting st)) q =
      set_phase-IsSound p _ (st, subst (IsGoodPhase s.cids) q (h.phases p), refl)

  pub end_query-IsSound :
      (p : PeerId) (v : Phase) (phase : Option Phase)
      → IsGoodPhase s.cids (some v)
      → IsSoundIf (end_query s p v phase)
  unfolding end_query
  end_query-IsSound p v none g = tt
  end_query-IsSound p v (some querying) g = set_phase-IsSound p v g
  end_query-IsSound p v (some (collecting st)) g = tt
  end_query-IsSound p v (some (leaving o)) g = tt

  pub queried_on-IsSound :
      (p : PeerId) (protocol : ProtocolId) (v : Phase) (phase : Option Phase)
      → contains text_dec protocol protocol_strings ≡ true
      → IsGoodPhase s.cids (some v)
      → Returns (queried_on s p protocol v phase) IsSoundIf
  queried_on-IsSound p protocol v phase fit g =
      rw (queried_on-fit s p protocol v phase fit) (end_query-IsSound p v phase g)

  pub end_call-IsSound :
      (p : PeerId) (phase : Option Phase)
      → s.pending ≡ none
      → lookup text_dec p s.active ≡ phase
      → IsSoundIf (end_call s p phase)
  unfolding end_call unregister_peer
  end_call-IsSound p none free q = tt
  end_call-IsSound p (some querying) free q = tt
  end_call-IsSound p (some (collecting st)) free q = tt
  end_call-IsSound p (some (leaving o)) free q = record {
    inside = λ k i. ground (
      arith,
      h.inside k,
      lookup-delete text_dec k p s.active,
      contains-remove text_dec k p s.receivers,
      i,
    );
    unclosed = λ k i. h.unclosed k (ground (arith, contains-remove text_dec k p s.receivers, i));
    held = rw free tt;
    phases = delete-IsGoodPhase s.cids s.active h.phases p;
    divided = (subst (IsGoodPhase s.cids) q (h.phases p), h.divided);
  }

  pub begin_call-IsSound :
      (p : PeerId)
      → s.pending ≡ none
      → lookup text_dec p s.active ≡ none
      → Returns (begin_call s p (register_peer p s.receivers)) IsSoundIf
  unfolding begin_call register_peer
  begin_call-IsSound p free new = elim (Bool-cases (contains text_dec p s.receivers)) [
    | inl q ↦ ground (arith, h.inside p q)
    | inr q ↦
        rw (register_peer, q)
          (record {
            inside = λ k i. ground (
              arith,
              h.inside k,
              lookup-insert text_dec k p querying s.active,
              contains-add text_dec k p s.receivers,
              i,
            );
            unclosed = λ k i. ground (
              arith,
              h.unclosed k,
              contains-add text_dec k p s.receivers,
              contains-remove text_dec k p s.closed,
              i,
            );
            held = rw free tt;
            phases = insert-IsGoodPhase s.cids s.active h.phases p querying tt;
            divided = h.divided;
          })
  ]
