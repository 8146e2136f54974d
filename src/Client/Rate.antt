-- ===== src/Client/Rate.antt =====
-- `getPktTypeNum` of client/client.c: which packets are requests.
pub mod Laws
use da_bao.Base.{ℕ, zero, suc, ◌+◌, List, [], ◌∷◌, leb, ltb, if◌then◌else◌, ◌&&◌, u32}

-- `REQUEST_PKT`, `HEARTBEAT_PKT` and `RATE_ACCURACY`
abbrev pub request_pkt : ℕ
request_pkt = 1

abbrev pub heartbeat_pkt : ℕ
heartbeat_pkt = 2

abbrev pub rate_accuracy : ℕ
rate_accuracy = 100

-- The type of the next packet, and `pktTypeCounter` after the call.
unfoldable pub get_pkt_type_num : ℕ → ℕ → ℕ × ℕ
get_pkt_type_num upper_bound pkt_type_counter =
    let counter = u32 (pkt_type_counter + 1) in
    if leb counter upper_bound
    then (request_pkt, counter)
    else (if leb upper_bound counter && ltb counter rate_accuracy
        then (heartbeat_pkt, counter)
        else (heartbeat_pkt, 0))

-- The types that `n` calls give, one after the other, and the counter after them.
pub types : ℕ → ℕ → ℕ → List ℕ × ℕ
unfolding get_pkt_type_num
types upper_bound zero counter = ([], counter)
types upper_bound (suc n) counter =
    let (type, counter') = get_pkt_type_num upper_bound counter in
    let (rest, counter'') = types upper_bound n counter' in (type ∷ rest, counter'')
