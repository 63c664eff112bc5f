-- ===== src/AddrTools/Laws.antt =====
-- The two address filters of crawling/addr_tools.go, by what is found in their results.
use ipfs_crawler.Prelude.{
  ◌≢◌, if_pos, if_neg, ◌↔◌, ◌⊎◌, inl, inr, sym, ◌∙◌, text_dec, false, ◌≡◌, refl, ◌||◌, ◌&&◌, not,
  Bool, true, List, [], ◌∷◌, arith, length, ◌≤◌,
}
use ipfs_crawler.Types.{Multiaddr}
use ipfs_crawler.AddrTools.{Manet, found, filter_out_old_addresses, strip_local_addrs}

kept : (a b : Bool) → a ≡ true → (b ≢ true) → (a && not b) ≡ true
kept true true e n = absurd (n refl)
kept true false e n = refl
kept false b e n = cc

found-filter_out :
    (a : Multiaddr) (old new : List Multiaddr)
    → found a (filter_out_old_addresses old new) ≡ (found a new && not (found a old))
unfolding filter_out_old_addresses found
found-filter_out a old [] = refl
found-filter_out a old (b ∷ new) = ground (arith, found-filter_out a old new)

-- `a` stands in the list.
abbrev pub In : Multiaddr → List Multiaddr → Type 0
In a [] = ⊥
In a (b ∷ bs) = (b ≡ a) ⊎ In a bs

found-In : (a : Multiaddr) (bs : List Multiaddr) → (found a bs ≡ true) ↔ In a bs
unfolding found
found-In a [] = (λ h. cc, λ h. absurd h)
found-In a (b ∷ bs) = elim (text_dec a b) [
  | yes e ↦ (λ h. inl (sym e), λ h. if_pos (text_dec a b) e _ _)
  | no n ↦ (
    λ h. inr ((found-In a bs).0 (sym (if_neg (text_dec a b) n _ _) ∙ h)),
    λ h.
        if_neg (text_dec a b) n _ _
        ∙ (found-In a bs).1 (elim h [ inl e ↦ absurd (n (sym e)) | inr rest ↦ rest ]),
  )
]

-- An address stands in the filtered list exactly if it stands among the new addresses and not among
-- the old ones.
pub filter_out-In :
    (a : Multiaddr) (old new : List Multiaddr)
    → In a (filter_out_old_addresses old new) ↔ (In a new × (¬ In a old))
filter_out-In a old new = (
  λ h.
      let both : (found a new && not (found a old)) ≡ true =
        sym (found-filter_out a old new) ∙ (found-In a (filter_out_old_addresses old new)).1 h in
      (
        (found-In a new).0 (ground (arith, both)),
        λ o. let there : found a old ≡ true = (found-In a old).1 o in ground (arith, both, there),
      ),
  λ h. (found-In a (filter_out_old_addresses old new)).0 (
      found-filter_out a old new
      ∙ kept (found a new) (found a old) ((found-In a new).1 h.0)
          (λ e. h.1 ((found-In a old).0 e))),
)

-- Where every address is old, none is left.
pub filter_out_subset :
    (old new : List Multiaddr)
    → ((a : Multiaddr) → found a new ≡ true → found a old ≡ true)
    → filter_out_old_addresses old new ≡ []
unfolding filter_out_old_addresses found
filter_out_subset old [] h = refl
filter_out_subset old (b ∷ new) h =
    ground (arith, h b, filter_out_subset old new (λ a e. h a (ground arith)))

module _ (manet : Manet) where
  abbrev pub is_local : Multiaddr → Bool
  is_local a = manet.is_private_addr a || manet.is_ip_loopback a

  -- The stripped list holds exactly the addresses that are neither private nor loopback.
  pub found-strip_local :
      (a : Multiaddr) (mas : List Multiaddr)
      → found a (strip_local_addrs manet mas) ≡ (found a mas && not (is_local a))
  unfolding strip_local_addrs found
  found-strip_local a [] = refl
  found-strip_local a (b ∷ mas) = ground (arith, found-strip_local a mas)

  pub length-strip_local-le :
      (mas : List Multiaddr) → length (strip_local_addrs manet mas) ≤ length mas
  unfolding strip_local_addrs
  length-strip_local-le [] = omega arith
  length-strip_local-le (b ∷ mas) = ground (arith, length-strip_local-le mas)

  -- Addresses that are already known leave nothing to add.
  pub filter_out-strip_self :
      (old : List Multiaddr) → filter_out_old_addresses old (strip_local_addrs manet old) ≡ []
  filter_out-strip_self old =
      filter_out_subset old (strip_local_addrs manet old)
        (λ a e. ground (arith, found-strip_local a old))
