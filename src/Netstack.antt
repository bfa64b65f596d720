-- ===== src/Netstack.antt =====
-- The network stack, netstack/src, as far as it is modelled: port allocation and the routing table.
pub mod PortSet
pub mod RouteTable
