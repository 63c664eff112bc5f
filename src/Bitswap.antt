-- ===== src/Bitswap.antt =====
-- The plugin of plugins/bsprobe/plugin.go: its messages, its results and the state of a probe.
-- Messages, streams and CIDs are the libraries': a message to send is the entries that were added to
-- it, a message received the CIDs that it speaks of, and a CID its text.
pub mod Collected
pub mod Hears
pub mod Heard
pub mod Query
pub mod Queried
pub mod Served
pub mod Concurrent
use ipfs_crawler.Prelude.{
  String, ℕ, ◌==◌, Bool, true, false, List, [], ◌∷◌, map, Option, none, some, text_dec, length,
  if◌then◌else◌,
}
use ipfs_crawler.Types.{Error, ProtocolId}
use ipfs_crawler.Config.{ℤ}
use ipfs_crawler.GoMap.{contains, add, remove}
use ipfs_crawler.Result.{Result, value, error}

abbrev pub Cid : Type 0
Cid = String

pub record Config : Type 0 where
  pub cids : List Cid
  pub request_timeout : ℤ
  pub response_period : ℤ

-- The versions of the protocol, the latest first.
abbrev pub one_two : ProtocolId
one_two = "/ipfs/bitswap/1.2.0"

abbrev pub one_one : ProtocolId
one_one = "/ipfs/bitswap/1.1.0"

abbrev pub one_zero : ProtocolId
one_zero = "/ipfs/bitswap/1.0.0"

abbrev pub no_version : ProtocolId
no_version = "/ipfs/bitswap"

abbrev pub protocol_strings : List ProtocolId
protocol_strings = one_two ∷ one_one ∷ one_zero ∷ no_version ∷ []

-- `pb.Message_Wantlist_WantType`
pub data WantType : Type 0 where
  want_have want_block : WantType

-- A call of `AddEntry`.
pub record Entry : Type 0 where
  pub cid : Cid
  pub priority : ℕ
  pub want_type : WantType
  pub send_dont_have : Bool

-- The probe, but for what changes while it runs. `handlers` are the protocols that it serves.
pub record BitswapProbe : Type 0 where
  pub cfg : Config
  pub want_have_message : List Entry
  pub want_block_message : List Entry
  pub handlers : List ProtocolId

unfoldable pub new_probe : Config → BitswapProbe
new_probe cfg = record {
  cfg = cfg;
  want_have_message =
      map
        (λ c. record {
          cid = c;
          priority = 2147483647;
          want_type = want_have;
          send_dont_have = true;
        })
        cfg.cids;
  want_block_message =
      map
        (λ c. record {
          cid = c;
          priority = 2147483647;
          want_type = want_block;
          send_dont_have = false;
        })
        cfg.cids;
  handlers = protocol_strings;
}

-- A message that a peer sent.
pub record Message : Type 0 where
  pub blocks : List Cid
  pub haves : List Cid
  pub dont_haves : List Cid

-- The variables of `collectResponses`.
pub record Answers : Type 0 where
  pub outstanding : List Cid
  pub haves : List Cid
  pub dont_haves : List Cid
  pub blocks : List Cid
  pub err : Option Error

-- `for _, c := range w.cfg.Cids { outstanding[c] = struct{}{} }`
unfoldable pub all_cids : List Cid → List Cid → List Cid
all_cids set [] = set
all_cids set (c ∷ cs) = all_cids (add text_dec c set) cs

unfoldable pub no_answers : List Cid → Answers
unfolding all_cids
no_answers cids = record {
  outstanding = all_cids [] cids;
  haves = [];
  dont_haves = [];
  blocks = [];
  err = none;
}

-- The three loops over the CIDs of a message.
unfoldable pub hear_blocks : Answers → List Cid → Answers
hear_blocks st [] = st
hear_blocks st (c ∷ cs) =
    hear_blocks
      (record st {
        outstanding = remove text_dec c st.outstanding;
        blocks = add text_dec c st.blocks;
      })
      cs

unfoldable pub hear_haves : Answers → List Cid → Answers
hear_haves st [] = st
hear_haves st (c ∷ cs) =
    hear_haves
      (record st {
        outstanding = remove text_dec c st.outstanding;
        haves = add text_dec c st.haves;
      })
      cs

unfoldable pub hear_dont_haves : Answers → List Cid → Answers
hear_dont_haves st [] = st
hear_dont_haves st (c ∷ cs) =
    hear_dont_haves
      (record st {
        outstanding = remove text_dec c st.outstanding;
        dont_haves = add text_dec c st.dont_haves;
      })
      cs

unfoldable pub hear : Answers → Message → Answers
unfolding hear_blocks hear_haves hear_dont_haves
hear st m = hear_dont_haves (hear_haves (hear_blocks st m.blocks) m.haves) m.dont_haves

-- What the `select` of the loop receives, but for the timeout: the channel is closed, or delivers an
-- error or a message.
pub data Arrival : Type 0 where
  closed : Arrival
  failed : Error → Arrival
  got : Message → Arrival

-- The loop over what arrives before the timeout, which comes after the end of the list.
unfoldable pub collect : Answers → List Arrival → Answers
unfolding hear
collect st [] = st
collect st (closed ∷ rest) = st
collect st (failed e ∷ rest) = record st { err = some e }
collect st (got m ∷ rest) =
    let more = collect (hear st m) rest in
    if length (hear st m).outstanding == 0 then hear st m else more

pub record ProbeResult : Type 0 where
  pub err : Option Error
  pub haves : List Cid
  pub dont_haves : List Cid
  pub blocks : List Cid
  pub no_response : List Cid

-- The slices of the maps' keys.
unfoldable pub to_result : Answers → ProbeResult
to_result st = record {
  err = st.err;
  haves = st.haves;
  dont_haves = st.dont_haves;
  blocks = st.blocks;
  no_response = st.outstanding;
}

unfoldable pub collect_responses : List Cid → List Arrival → ProbeResult
unfolding no_answers collect to_result
collect_responses cids arrivals = to_result (collect (no_answers cids) arrivals)
