-- ===== src/Cluster/Link/Gossip.antt =====
-- cluster/cluster_link.cpp: send_gossip, with the types of cluster/cluster_gossip.h that it reads.
use concurrent_cache.Prelude.{
  ℕ, ℤ, pos, Bool, List, ◌++◌, map, eq_ℤ, take, replicate, length, ◌-◌, if◌then◌else◌,
}
use concurrent_cache.Text.{Bytes, codes}
use concurrent_cache.Text.Decimal.{to_string, to_string_ℤ}
use concurrent_cache.Cluster.Link.Header.{ClusterMsg, new_msg}
use concurrent_cache.Cluster.Link.Session.{ClusterLink, send_msg, c_string}

pub data GossipType : Type 0 where
  ping : GossipType
  pong : GossipType
  meet : GossipType
  fail : GossipType
  failover_auth_req : GossipType
  failover_auth_ack : GossipType
  push : GossipType
  pull : GossipType

-- The code of the ClusterMsgType that a GossipType is sent as.
unfoldable pub msg_type_of : GossipType → ℕ
msg_type_of GossipType.ping = 1
msg_type_of GossipType.pong = 2
msg_type_of GossipType.meet = 3
msg_type_of GossipType.fail = 5
msg_type_of GossipType.failover_auth_req = 7
msg_type_of GossipType.failover_auth_ack = 8
msg_type_of GossipType.push = 9
msg_type_of GossipType.pull = 4

-- The fields of GossipNodeInfo that go out.
pub record GossipNodeInfo : Type 0 where
  pub name : Bytes
  pub ip : Bytes
  pub port : ℕ
  pub flags : ℕ
  pub role : ℕ
  pub failover_offset : ℤ

pub record GossipMsg : Type 0 where
  pub gossip_type : GossipType
  pub sender_epoch : ℕ
  pub sender_name : Bytes
  pub nodes : List GossipNodeInfo

-- node_name,ip,port,flags,role[,failover_offset]
unfoldable pub node_info : GossipNodeInfo → Bytes
node_info node =
    let base =
      node.name
      ++ codes ","
      ++ node.ip
      ++ codes ","
      ++ to_string node.port
      ++ codes ","
      ++ to_string node.flags
      ++ codes ","
      ++ to_string node.role in
    if eq_ℤ node.failover_offset (pos 0)
    then base
    else base ++ codes "," ++ to_string_ℤ node.failover_offset

-- `strncpy(field, name, 39)` into a zeroed field of 40 bytes.
abbrev pub copy_name : Bytes → Bytes
copy_name name = let text = take 39 (c_string name) in text ++ replicate (40 - length text) 0

unfoldable pub gossip_frame : GossipMsg → ClusterMsg
gossip_frame g = record {
  header = record new_msg.header {
    type_code = msg_type_of g.gossip_type;
    sender_epoch = g.sender_epoch;
    sender_name = copy_name g.sender_name;
  };
  args = map node_info g.nodes;
}

unfoldable pub send_gossip : Bytes → GossipMsg → ClusterLink → ClusterLink × Bool
send_gossip my_name g link = send_msg my_name (gossip_frame g) link
