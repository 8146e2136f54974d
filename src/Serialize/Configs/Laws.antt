-- ===== src/Serialize/Configs/Laws.antt =====
-- Both configuration messages are read back as they were written.
use da_bao.Base.{ℕ, ◌≡◌, List, ◌++◌}
use mathlib.Core.List.{append_assoc}
use da_bao.SocketTools.Laws.{deserialize_u32-serialize_u32}
use da_bao.Serialize.Arrays.{read_u8s, skip_u32}
use da_bao.Serialize.Configs.{
  ClientInitConfigs, ClientUpdateConfigs, IsInitConfigs, IsUpdateConfigs,
}
use da_bao.Serialize.Configs.{serialize_init_configs, serialize_update_configs}
use da_bao.Serialize.Configs.{deserialize_init_configs, deserialize_update_configs}

ruleset reading = (append_assoc, read_u8s, skip_u32, deserialize_u32-serialize_u32)

-- The first configuration message is read back as it was written, whatever bytes stand behind it,
-- if its fields fit their widths.
pub deserialize_init_configs-serialize_init_configs :
    (c : ClientInitConfigs) (rest : List ℕ)
    → IsInitConfigs c
    → deserialize_init_configs (serialize_init_configs c ++ rest) ≡ c
unfolding serialize_init_configs deserialize_init_configs
deserialize_init_configs-serialize_init_configs c rest v = simp (
  reading, v.epoch_word, v.connections_word, v.request_rate_word, v.burst_word, v.vburst_word,
  v.server_ip_size, v.server_ip_bytes, v.server_port_word,
)

-- The update message is read back as it was written, whatever bytes stand behind it, if its fields
-- fit their widths.
pub deserialize_update_configs-serialize_update_configs :
    (c : ClientUpdateConfigs) (rest : List ℕ)
    → IsUpdateConfigs c
    → deserialize_update_configs (serialize_update_configs c ++ rest) ≡ c
unfolding serialize_update_configs deserialize_update_configs
deserialize_update_configs-serialize_update_configs c rest v =
    simp (reading, v.epoch_word, v.connections_word, v.request_rate_word, v.burst_word)
