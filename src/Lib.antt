-- ===== src/Lib.antt =====
-- MyIP, a TCP/IP stack in user space: packets come from a device (phys_*.cpp), go through a network
-- layer to the queue of a transport layer, and from there to the handler of a port; what a handler
-- sends goes the other way, through the router to a device. Between the layers stand queues (fifo.h).
--
-- The files and the code that each one models:
--
--   Base        shared names, lists, bit operations as arithmetic, `std::map` from numbers
--   Addr        any_addr.cpp: addresses, their comparison and order (Addr.Defs, Addr.Order)
--   Hash        MurmurHash64A of hash.cpp and hash_address of tcp.cpp, the key of a session
--   Checksum    ip_checksum of network_layer.cpp, tcp_udp_checksum of transport_layer.cpp
--   Fifo        fifo.h, the queue; Fifo.View its contents as a list, Fifo.Refine the
--               refinement to it; Fifo.Stats fifo_stats.cpp
--   Buffer      buffer_in.cpp and buffer_out.cpp
--   Slip        phys_slip.cpp, the framing on a serial line
--   Ax25        ax25.cpp; Ax25.Edit the other ways to make an address or a packet, Ax25.CallSign and
--               Ax25.RoundTrip the theorems
--   Kiss        phys_kiss.cpp, the framing of AX.25 packets on a serial line; Kiss.Link the theorems
--   Udp         udp.cpp
--   Cache       address_cache.cpp
--   Router      the IP routes of router.cpp, check_subnet of net.cpp; Router.Forward its operator()
--   Ipv4        ipv4.cpp with packet.h: the header that is sent, and what is received; Ipv4.Delivery
--               and Ipv4.Fate the theorems
--   Ipv6        ipv6.cpp; Ipv6.Delivery the theorem
--   Snmp        the encoding of snmp_elem.cpp and the readers of snmp.cpp; Snmp.Data and Snmp.Next the
--               tree of snmp_data.cpp, Snmp.Messages the requests, Snmp.Reply the replies;
--               Snmp.Numbers, Snmp.Register and Snmp.Bounds the theorems
--   Icmp4       icmp4.cpp; Icmp4.Echo the messages, Icmp4.Ping a request and its reply over Ipv4
--   Icmp6       icmp6.cpp, with the requests of ndp.cpp; Icmp6.Verify the theorems
--   Arp         arp.cpp; Arp.Resolve its requests and get_mac of mac_resolver.cpp, Arp.Exchange a
--               resolution from the request to the result
--   Ppp         phys_gen_ppp.cpp and phys_ppp.cpp: the framing; Ppp.Control and Ppp.Negotiate the
--               control protocols, Ppp.Device the packets and the bytes of a line; Ppp.RoundTrip,
--               Ppp.Fcs, Ppp.Link and Ppp.Options the theorems
--   Tcp         tcp.cpp and tcp.h:
--     Tcp.State     the states, `tcp_session`, the tables of `class tcp`, events
--     Tcp.Segment   send_segment and send_rst_for_port
--     Tcp.Header    the fields of a packet and the walk over its options
--     Tcp.Receive   the steps of packet_handler on the session of a packet
--     Tcp.Handler   packet_handler around them: admission, removal, notification
--     Tcp.Send      send_data, end_session, a round of unacked_sender
--     Tcp.Cleaner   a round of session_cleaner
--     Tcp.Client    the sessions that this host opens
--     Tcp.Wire, Tcp.Options, Tcp.States, Tcp.Quiet, Tcp.Deliver, Tcp.Stream, Tcp.Resend, Tcp.Table,
--     Tcp.Cleaning, Tcp.Handshake, Tcp.Faults    the theorems, each file named for what it is about
--   Sctp        sctp.cpp: Sctp.Chunks the chunks that are received, Sctp.Handler operator() on a packet,
--               Sctp.Send what is sent; Sctp.Bounds, Sctp.Reading, Sctp.Cookie, Sctp.Echo,
--               Sctp.Handshake and Sctp.Stream the theorems
--   Dns         dns.cpp: answers and caches; Dns.Query the queries, with split and str_tolower of
--               str.cpp; Dns.Names, Dns.Packet and Dns.Answers the theorems
--   Mdns        mdns.cpp; Mdns.Records the theorem
--   Mqtt        mqtt.cpp: the subscriptions and publishing; Mqtt.Messages the messages of a session;
--               Mqtt.Publish, Mqtt.Topics and Mqtt.Wire the theorems
--   Tests       runs of the theorems on concrete data
--
-- A session is a record of the fields of `tcp_session`; the buffer `unacked` is a list, of which the
-- first `unacked_size` bytes count. A handler gives back the changed state and the events of the
-- outside, in the order of its calls: segments sent, applications called, threads woken. A call runs
-- under its locks and is one step. A failed assertion or an exception is `none`, an endless loop is a
-- result of its own or `none` for every fuel.
--
-- Numbers are natural numbers with the wrap-around of their C++ type written out (`u32`, `sub64`).
-- Where the code takes the difference of unsigned numbers and goes on with an `int`, the sign is read
-- from the bits.
--
-- Fuel: the walk over the options has 64 rounds, and a header has at most 60 bytes; the loop of
-- unacked_sender, the round of session_cleaner and the loop over the options of a router
-- advertisement have a fuel of the caller's. The loops over the options of a PPP control packet have a
-- fuel of the caller's: one more than the number of options is enough, unless an option has the length
-- 0. The loops over the chunks and parameters of an SCTP packet and over the labels of a DNS name have
-- as many rounds as there are bytes, and the recursion over an SNMP packet is at most one deeper.
--
-- Where the code reads or writes behind a buffer the model fails or stops: a prefix of more than 128
-- bits, a counter of fifo_stats behind the array, a byte behind an SNMP packet, a topic that goes on
-- behind its MQTT message.
--
-- Parameters: the answers of an application (`PortHandler`) and of a device to a sent packet, the
-- address family and the hardware address of an interface, what ARP and NDP answer, the clock and the
-- random bytes (`Machine` or arguments), the HMAC of a state cookie and the CRC-32C. The hash reads words
-- in the order of a little-endian machine.
--
-- Not modelled: the threads' interleaving inside one call, logging and statistics of durations, text,
-- device files, the VPN and the other applications.
pub mod Base
pub mod Addr
pub mod Hash
pub mod Checksum
pub mod Fifo
pub mod Tcp
pub mod Buffer
pub mod Slip
pub mod Udp
pub mod Cache
pub mod Router
pub mod Tests
pub mod Ipv4
pub mod Icmp4
pub mod Ppp
pub mod Arp
pub mod Snmp
pub mod Ipv6
pub mod Ax25
pub mod Kiss
pub mod Icmp6
pub mod Sctp
pub mod Dns
pub mod Mqtt
pub mod Mdns
