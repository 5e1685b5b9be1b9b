-- ===== src/Lib.antt =====
-- OpenVRRP: the virtual router of src/, a daemon for VRRP version 3 (RFC 5798).
--
-- The program keeps one VrrpService for each virtual router. A service reacts to its two timers,
-- to the state of its interface, to the packets that a VrrpSocket hands it, and to the setters
-- that the configuration calls. It takes the addresses of its router, or gives them up, by calls
-- of Netlink and ArpService, and advertises itself through the VrrpSocket. VrrpManager keeps the
-- services by interface, router id and family; the Configurator sets them up from a file, and the
-- commands of a TelnetSession change them.
--
-- The files:
--   Prelude: the names, tests, lists and widths that the others share.
--   Address: src/ipaddress.h, src/ipaddress.cpp, src/ipsubnet.h, src/ipsubnet.cpp. An address is
--     a family and its bytes; operator < is `less`, operator == is `equal`. Address/Order has
--     the order's laws, Address/Parse the constructors from texts.
--   Text: what the program uses of the C library on texts.
--   Containers: std::set and std::map as sorted lists, with what a lookup sees in
--     Containers/Laws, and maps of maps in Containers/Nested.
--   Timer: src/timer.cpp, a timerfd as what was last written to it.
--   Service and below: src/vrrpservice.h, src/vrrpservice.cpp, src/vrrpeventlistener.h. The
--     record Service has the members (m_priority is `priority`, and so on). A method is a state
--     transformer that also lists, in order, the calls that it makes of the other parts, as the
--     data type Call. Actions has what setState calls, Transitions the state machine and the
--     timers' callbacks, Advertisements onIncomingVrrpPacket and onIncomingVrrpError, Config the
--     setters, Lifecycle the constructor and destructor, Timing the intervals. Run has every
--     public method and callback as an event, and runs of events; Run/Settings has what the
--     setters alone change.
--   Ledger and below: an independent account of the host. It replays the calls of a service and
--     says which interface has which address, and which ARP requests are answered.
--   Checksum and below: the routine of src/util.cpp.
--   Socket and below: src/vrrpsocket.h, src/vrrpsocket.cpp. Send has sendPacket, Receive
--     onSocketPacket from a filled buffer on. Sums has the bytes and the checksum of what is sent,
--     Exchange how it is received. Control has decodeControlMessage, Instances the constructor,
--     instance and cleanup.
--   ArpService and below: src/arpservice.h, src/arpservice.cpp. The table of addresses by interface,
--     and onArpPacket. Tables performs the calls of a service on it.
--   ArpSocket: src/arpsocket.cpp, the gratuitous ARP packet.
--   Manager and below: src/vrrpmanager.h, src/vrrpmanager.cpp. The map of the services; a pointer
--     to a service is its place in the map. Sound says when every service of the map is in order,
--     Memberships what a new one does to its socket.
--   Configurator and below: src/configurator.h, src/configurator.cpp. A reader takes the bytes of
--     the file and gives what is left of them. Load has what readConfiguration does with a router,
--     Restore, Enabled, Reloaded and Reload what a saved configuration comes to, Registry and Saved the
--     same of a whole registry.
--   Telnet and below: src/telnetsession.h, src/telnetsession.cpp. A handler is a computation on the
--     map of the services, the answers and the calls, with no result when it reads past its
--     arguments. Words has splitCommand, Lookup getService, Edit, Settings, Show and Commands the
--     handlers and their dispatch, Daemon a session with the events between its lines. Alive and
--     Answers have the proofs for each handler, Sessions what they come to. Receive has receiveChunk,
--     Receive/Lines and Receive/Overrun what becomes of a client's lines. Server and below:
--     src/telnetserver.h, src/telnetserver.cpp, with the descriptors that are open.
--   MainLoop and below: src/mainloop.h, src/mainloop.cpp. The table of the monitors by descriptor,
--     with pointers, and the rounds of events. Pointers says which of them are good.
--   Netlink and below: src/netlink.h, src/netlink.cpp. A function is a computation on the objects of
--     libnl that are not freed, with no result when it uses one that was, or a pointer to none.
--     Requests has the functions, Balance what each leaves behind, Answers what it sends and
--     answers. Monitors has the callbacks of interfaces and their socket, Monitors/Watched when there
--     is one, Monitors/Delivered who is called.
--   Network: two services on two hosts, each of which hears what the other's socket sends.
--   Examples: the runs, packets and tables on which the theorems are tried.
--
-- Numbers are natural numbers; where the program's type wraps, `u32` and `u64` write the
-- remainder out. The folding loop of the checksum has fuel 3, which is enough for every 32-bit
-- sum. The loop over IPv6 extension headers has the length of the buffer as fuel: each round
-- takes two bytes at least, and a read past the buffer ends it. The loop over the control message
-- has more fuel than the length of the control data, of which each round takes 16 bytes at least.
-- The loop that deletes the sessions of a server has one round more than there are sessions. The
-- loop over the lines of a read takes its fuel as an argument: one round is enough where the read
-- ends with the line.
--
-- The answers of the operating system and of libnl are arguments: whether an interface is up,
-- the primary address, what the constructor's calls give, and the answers of setsockopt. The
-- results of Netlink and ArpService are left out of Service, since setState drops them; the
-- ledger is what the host holds if these calls succeed. Netlink itself is modelled by its calls of
-- libnl, which is not in the repository: a call that makes an object gives a new one, a call with
-- an object needs it alive, and what the kernel answers is an argument.
--
-- The texts of the configuration and of the commands are bytes. atoi is modelled on numbers that an
-- int can hold. inet_pton, if_nametoindex, if_indextoname and the answers to a constructor are
-- arguments; what the C variable for the VLAN holds, when the file does not give it, is one too.
--
-- Not modelled: ports and the printed forms of addresses, log messages, the environment of a script,
-- the descriptors of timers and of the ARP service, the texts of the answers of a session, the
-- function setIpConfiguration, which nothing calls, and the program's start.
pub mod Prelude
pub mod Address
pub mod Containers
pub mod Timer
pub mod Service
pub mod Ledger
pub mod Checksum
pub mod Socket
pub mod ArpService
pub mod ArpSocket
pub mod Configurator
pub mod Text
pub mod Manager
pub mod Telnet
pub mod Netlink
pub mod MainLoop
pub mod Network
mod Examples
