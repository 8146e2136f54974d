-- ===== src/Serialize/Configs.antt =====
-- The configuration messages of protocol.h. An `int` is its 32-bit pattern. The two readers of the
-- source are declared to return the advanced pointer, but return nothing; they fill `info`.
pub mod Laws
use da_bao.Base.{ℕ, ◌+◌, ◌^◌, ◌<◌, ◌≡◌, List, [], ◌++◌, length, drop, All}
use da_bao.SocketTools.{serialize_u8, serialize_u32, deserialize_u8, deserialize_u32}
use da_bao.Serialize.Arrays.{write_each, read_each}

-- `IPLEN`
abbrev pub ip_len : ℕ
ip_len = 16

pub record ClientInitConfigs : Type 0 where
  pub epoch : ℕ
  pub connections : ℕ
  pub request_rate : ℕ
  pub burst : ℕ
  pub vburst : ℕ
  pub server_ip : List ℕ
  pub server_port : ℕ

pub record ClientUpdateConfigs : Type 0 where
  pub epoch : ℕ
  pub connections : ℕ
  pub request_rate : ℕ
  pub burst : ℕ

pub serialize_init_configs : ClientInitConfigs → List ℕ
serialize_init_configs info =
    serialize_u32 info.epoch
    ++ (serialize_u32 info.connections
        ++ (serialize_u32 info.request_rate
            ++ (serialize_u32 info.burst
                ++ (serialize_u32 info.vburst
                    ++ (write_each serialize_u8 info.server_ip
                        ++ serialize_u32 info.server_port)))))

pub serialize_update_configs : ClientUpdateConfigs → List ℕ
serialize_update_configs info =
    serialize_u32 info.epoch
    ++ (serialize_u32 info.connections
        ++ (serialize_u32 info.request_rate ++ serialize_u32 info.burst))

pub deserialize_init_configs : List ℕ → ClientInitConfigs
deserialize_init_configs buffer =
    let b1 = drop 4 buffer in
    let b2 = drop 4 b1 in
    let b3 = drop 4 b2 in
    let b4 = drop 4 b3 in
    let b5 = drop 4 b4 in
    let (server_ip, b6) = read_each deserialize_u8 1 ip_len b5 in
    record {
      epoch = deserialize_u32 buffer;
      connections = deserialize_u32 b1;
      request_rate = deserialize_u32 b2;
      burst = deserialize_u32 b3;
      vburst = deserialize_u32 b4;
      server_ip = server_ip;
      server_port = deserialize_u32 b6;
    }

pub deserialize_update_configs : List ℕ → ClientUpdateConfigs
deserialize_update_configs buffer =
    let b1 = drop 4 buffer in
    let b2 = drop 4 b1 in
    let b3 = drop 4 b2 in
    record {
      epoch = deserialize_u32 buffer;
      connections = deserialize_u32 b1;
      request_rate = deserialize_u32 b2;
      burst = deserialize_u32 b3;
    }

pub record IsInitConfigs (c : ClientInitConfigs) : Type 0 where
  pub epoch_word : c.epoch < 2 ^ 32
  pub connections_word : c.connections < 2 ^ 32
  pub request_rate_word : c.request_rate < 2 ^ 32
  pub burst_word : c.burst < 2 ^ 32
  pub vburst_word : c.vburst < 2 ^ 32
  pub server_ip_size : length c.server_ip ≡ ip_len
  pub server_ip_bytes : All (λ x. x < 2 ^ 8) c.server_ip
  pub server_port_word : c.server_port < 2 ^ 32

pub record IsUpdateConfigs (c : ClientUpdateConfigs) : Type 0 where
  pub epoch_word : c.epoch < 2 ^ 32
  pub connections_word : c.connections < 2 ^ 32
  pub request_rate_word : c.request_rate < 2 ^ 32
  pub burst_word : c.burst < 2 ^ 32
