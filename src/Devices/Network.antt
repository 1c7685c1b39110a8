-- ===== src/Devices/Network.antt =====
-- The network of nachos-3.4/code/machine/network.cc and network.h. A packet on the wire is a list of bytes;
-- the socket of the host is a parameter of the operations that use it.
use n4ch0s.Base.{
  ℕ, ◌+◌, ◌==◌, ◌&&◌, ◌>>=◌, ◌>>◌, assert, if◌then◌else◌, Bool, true, false, not, Option, none,
  some, List, ◌++◌, ltb, leb, take, drop,
}
use n4ch0s.Base.Int.{ℤ, pos, negsuc}
use n4ch0s.Interrupt.{Interrupt, schedule, network_send_int, network_recv_int}
use n4ch0s.FileSys.Image.{put_int, get_int, put_word, get_word}

abbrev pub max_wire_size : ℕ
max_wire_size = 64

abbrev pub packet_header_size : ℕ
packet_header_size = 12

-- `MaxWireSize - sizeof(struct PacketHeader)`.
abbrev pub max_packet_size : ℕ
max_packet_size = 52

abbrev pub network_time : ℕ
network_time = 100

pub record PacketHeader : Type 0 where
  pub to : ℤ
  pub from : ℤ
  pub length : ℕ

-- The bytes of a header.
abbrev pub put_packet_header : PacketHeader → List ℕ
put_packet_header h = put_int h.to ++ (put_int h.from ++ put_word h.length)

unfoldable pub get_packet_header : List ℕ → PacketHeader
get_packet_header bytes = record {
  to = get_int bytes;
  from = get_int (drop 4 bytes);
  length = get_word (drop 8 bytes);
}

abbrev pub same_int : ℤ → ℤ → Bool
same_int (pos a) (pos b) = a == b
same_int (pos a) (negsuc b) = false
same_int (negsuc a) (pos b) = false
same_int (negsuc a) (negsuc b) = a == b

-- `read_poll` and `send_done` are the numbers of the functions that the interrupts call with `this`. The last
-- two fields are counters in stats.h.
pub record Network : Type 0 where
  pub ident : ℤ
  pub read_poll : ℕ
  pub send_done_handler : ℕ
  pub this : ℕ
  pub send_busy : Bool
  pub in_hdr : PacketHeader
  pub inbox : List ℕ
  pub packets_sent : ℕ
  pub packets_recvd : ℕ

-- The constructor, after the socket has been opened.
unfoldable pub init :
    (addr : ℤ)
    → (read_poll send_done this : ℕ) → (fresh : PacketHeader) → List ℕ
    → Interrupt
    → Option (Network × Interrupt)
init addr read_poll send_done this fresh inbox s =
    schedule s read_poll this network_time network_recv_int >>= λ s'. some (
      record {
        ident = addr;
        read_poll = read_poll;
        send_done_handler = send_done;
        this = this;
        send_busy = false;
        in_hdr = record fresh { length = 0 };
        inbox = inbox;
        packets_sent = 0;
        packets_recvd = 0;
      },
      s',
    )

-- The packet that has been polled and read.
unfoldable pub take_packet : Network → Interrupt → List ℕ → Option (Network × Interrupt × Bool)
take_packet n s buffer =
    let hdr = get_packet_header buffer in
    let same : Bool = same_int hdr.to n.ident in
    assert (same && leb hdr.length max_packet_size)
    >> some (
      record n {
        in_hdr = hdr;
        inbox = take hdr.length (drop packet_header_size buffer);
        packets_recvd = n.packets_recvd + 1;
      },
      s,
      true,
    )

-- `CheckPktAvail`, with the packet that the socket has, if any: whether it calls the read handler.
unfoldable pub check_pkt_avail :
    Network → Interrupt → Option (List ℕ) → Option (Network × Interrupt × Bool)
check_pkt_avail n s socket = schedule s n.read_poll n.this network_time network_recv_int >>= λ s'.
    let polled : Option (Network × Interrupt × Bool) = elim socket [
      | none ↦ some (n, s', false)
      | some buffer ↦ take_packet n s' buffer
    ] in
    if not (n.in_hdr.length == 0) then some (n, s', false) else polled

-- `SendDone`; it calls the write handler.
unfoldable pub send_done : Network → Network
send_done n = record n { send_busy = false; packets_sent = n.packets_sent + 1 }

-- `Send`: what goes into the socket. `works` is the outcome of the random number, and `fresh` what the new
-- buffer holds behind the data.
unfoldable pub send :
    Network
    → Interrupt
    → PacketHeader
    → (bytes : List ℕ) → (works : Bool) → (fresh : List ℕ) → Option (Interrupt × Option (List ℕ))
send n s hdr bytes works fresh =
    let fine =
      not n.send_busy
      && ltb 0 hdr.length
      && leb hdr.length max_packet_size
      && same_int hdr.from n.ident in
    assert fine
    >> (schedule s n.send_done_handler n.this network_time network_send_int >>= λ s'.
        let wire =
          put_packet_header hdr
          ++ (take hdr.length bytes ++ drop (packet_header_size + hdr.length) fresh) in
        some (s', if works then some wire else none))

-- `Receive`: the header, what is copied to the caller, and the device.
unfoldable pub receive : Network → PacketHeader × List ℕ × Network
receive n =
    (n.in_hdr, take n.in_hdr.length n.inbox, record n { in_hdr = record n.in_hdr { length = 0 } })
