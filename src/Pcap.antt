-- ===== src/Pcap.antt =====
-- backend/app/pcap_tls.py: the classic pcap container, Ethernet/IPv4 packets, TLS ClientHello server
-- names and DNS answers, all read from untrusted bytes.
pub mod Frames
pub mod Packet
pub mod Hello
pub mod Answers
