-- ===== src/Server/Start.antt =====
-- src/server.rs and src/config.rs: the configuration of a node and how it starts.
use chamomile.Prelude.{ℕ, Bool, false, not, Option, none, some, List, [], ◌++◌, map}
use chamomile.Prelude.Bytes.{Bytes}
use chamomile.Prelude.Result.{Result, ok, err}
use chamomile.Types.Ids.{PeerId}
use chamomile.Types.Socket.{IpAddr, SocketAddr}
use chamomile.Types.Peer.{Peer, peer_of_id}
use chamomile.Types.PeerText.{Printing}
use chamomile.Keys.Crypto.{Crypto}
use chamomile.Keys.Keypair.{Keypair, keypair_from_db_bytes, keypair_to_db_bytes, peer_id}
use chamomile.Store.Buffer as Buffer
use chamomile.Store.PeerList
use chamomile.Store.PeerList.Load.{load}
use chamomile.Session.State.{Global}
use chamomile.Server.State.{Server}
use chamomile.Server.Outside.{dial_all}

-- `Config`, but for the directory of the files
pub record Config : Type 0 where
  pub peer : Peer
  pub allowlist : List Peer
  pub blocklist : List IpAddr
  pub allow_peer_list : List PeerId
  pub block_peer_list : List PeerId
  pub permission : Bool
  pub only_stable_data : Bool
  pub delivery_length : ℕ

-- `Config::default`
unfoldable pub default_config : Peer → Config
default_config peer = record {
  peer = peer;
  allowlist = [];
  blocklist = [];
  allow_peer_list = [];
  block_peer_list = [];
  permission = false;
  only_stable_data = false;
  delivery_length = 0;
}

-- The key of the file, or else the one that is generated, with the bytes that are written to the file.
unfoldable pub stored_key : Result Keypair → Keypair → Keypair × Option Bytes
unfolding keypair_to_db_bytes
stored_key (ok key) generated = (key, none)
stored_key (err e) generated = (generated, some (keypair_to_db_bytes generated))

unfoldable pub load_key : Crypto → Bytes → Keypair → Keypair × Option Bytes
unfolding stored_key
load_key c key_bytes generated = stored_key (keypair_from_db_bytes c key_bytes) generated

-- The `Global` of the node that starts, on the parts of it that are not configured: its key, and the
-- address that its transport listens on.
unfoldable pub start_global : Config → Keypair → SocketAddr → Global → Global
unfolding peer_id
start_global config key local_addr g = record g {
  peer = record config.peer { id = peer_id g.crypto key; socket = local_addr };
  key = key;
  is_relay_data = not config.permission;
  delivery_length = config.delivery_length;
}

-- the lists and maps of the node that starts, on the text of the file of its peers
unfoldable pub start_state : Printing → Config → PeerId → Option Bytes → Server
unfolding load
start_state p config id peers_text = record {
  shared = record {
    buffer = Buffer.init;
    peers =
        load p id peers_text (config.allowlist ++ map peer_of_id config.allow_peer_list)
          config.block_peer_list config.blocklist;
  };
  log = [];
}

-- `start`, before its loops: the files can be written and the transport listens
unfoldable pub start :
    Printing
    → Config
    → Bytes
    → Keypair
    → Option Bytes
    → SocketAddr
    → Global
    → PeerId × Global × Server
unfolding load_key start_global start_state dial_all
start p config key_bytes generated peers_text local_addr g =
    let (key, to_write) = load_key g.crypto key_bytes generated in
    let id = peer_id g.crypto key in
    let node = start_global config key local_addr g in
    let s = start_state p config id peers_text in
    (id, node, (dial_all node (PeerList.bootstrap s.peers) s).1)
