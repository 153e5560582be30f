-- ===== src/NetworkProtocols.antt =====
-- include/iuring/NetworkProtocols.hpp: the lifetimes and the service classes of datagrams.
use iuring.Prelude.{ℕ, ◌<◌, arith}

-- `timetolive_t`.
pub data TimeToLive : Type 0 where
  ptp_ttl rtp_ttl normal_ttl mdns_ttl : TimeToLive

unfoldable pub ttl_value : TimeToLive → ℕ
ttl_value ptp_ttl = 16
ttl_value rtp_ttl = 32
ttl_value normal_ttl = 58
ttl_value mdns_ttl = 255

-- `dscp_t`; its other names are for values that stand here.
pub data Dscp : Type 0 where
  cs0 cs1 cs2 cs3 cs4 cs5 cs6 cs7 : Dscp
  af11 af12 af13 af21 af22 af23 af31 af32 af33 af41 af42 af43 : Dscp
  voice_admit expedited_forwarding : Dscp

unfoldable pub dscp_value : Dscp → ℕ
dscp_value cs0 = 0
dscp_value cs1 = 8
dscp_value cs2 = 16
dscp_value cs3 = 24
dscp_value cs4 = 32
dscp_value cs5 = 40
dscp_value cs6 = 48
dscp_value cs7 = 56
dscp_value af11 = 10
dscp_value af12 = 12
dscp_value af13 = 14
dscp_value af21 = 18
dscp_value af22 = 20
dscp_value af23 = 22
dscp_value af31 = 26
dscp_value af32 = 28
dscp_value af33 = 30
dscp_value af41 = 34
dscp_value af42 = 36
dscp_value af43 = 38
dscp_value voice_admit = 44
dscp_value expedited_forwarding = 46

pub ttl_value-pos : (t : TimeToLive) → 0 < ttl_value t
unfolding ttl_value
ttl_value-pos ptp_ttl = omega arith
ttl_value-pos _ = omega arith

pub ttl_value-lt : (t : TimeToLive) → ttl_value t < 256
unfolding ttl_value
ttl_value-lt ptp_ttl = omega arith
ttl_value-lt _ = omega arith

-- A service class takes six bits.
pub dscp_value-lt : (d : Dscp) → dscp_value d < 64
unfolding dscp_value
dscp_value-lt cs0 = omega arith
dscp_value-lt _ = omega arith
