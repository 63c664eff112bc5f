-- ===== src/AddrTools.antt =====
-- crawling/addr_tools.go. The classification of addresses is go-multiaddr's (`manet`), and the
-- parsers of multiaddresses are libp2p's.
pub mod Laws
use ipfs_crawler.Prelude.{
  Bool, true, false, ◌||◌, String, List, [], ◌∷◌, Option, none, some, text_dec, if◌then◌else◌, ite,
}
use ipfs_crawler.Types.{Multiaddr, AddrInfo, Error}

-- `manet.IsPrivateAddr` and `manet.IsIPLoopback`
pub record Manet : Type 0 where
  pub is_private_addr : Multiaddr → Bool
  pub is_ip_loopback : Multiaddr → Bool

-- The inner loop: is `newaddr` among the old addresses?
unfoldable pub found : Multiaddr → List Multiaddr → Bool
found newaddr [] = false
found newaddr (oldaddr ∷ old) = ite (text_dec newaddr oldaddr) true (found newaddr old)

unfoldable pub filter_out_old_addresses : List Multiaddr → List Multiaddr → List Multiaddr
filter_out_old_addresses old [] = []
filter_out_old_addresses old (newaddr ∷ new) =
    let rest = filter_out_old_addresses old new in
    if found newaddr old then rest else newaddr ∷ rest

module _ (manet : Manet) where
  unfoldable pub strip_local_addrs : List Multiaddr → List Multiaddr
  strip_local_addrs [] = []
  strip_local_addrs (maddr ∷ mas) =
      let rest = strip_local_addrs mas in
      if manet.is_private_addr maddr || manet.is_ip_loopback maddr then rest else maddr ∷ rest
