-- ===== src/PostOffice/Tests.antt =====
-- A message of nachos-3.4/code/network/post.cc from the machine 0 to the machine 1.
use n4ch0s.Base.{ℕ, ◌∷◌, refl, false, [], arith}
use n4ch0s.Base.Int.{pos}
use n4ch0s.Interrupt
use n4ch0s.Interrupt.{Interrupt}
use n4ch0s.Devices.Network.{Network, PacketHeader}
use n4ch0s.PostOffice.{init}
use n4ch0s.PostOffice.Delivery.{Delivered, send-Delivered}

abbrev no_packet : PacketHeader
no_packet = record { to = pos 0; from = pos 0; length = 0 }

abbrev device : ℕ → Network
device k = record {
  ident = pos k;
  read_poll = 1;
  send_done_handler = 2;
  this = 3;
  send_busy = false;
  in_hdr = no_packet;
  inbox = [];
  packets_sent = 0;
  packets_recvd = 0;
}

abbrev destination : PacketHeader
destination = record { to = pos 1; from = pos 9; length = 77 }

send-Delivered_example :
    Delivered
      (init (pos 0) 2)
      (init (pos 1) 4)
      (device 0)
      (device 1)
      Interrupt.init
      Interrupt.init
      destination
      (record { to = pos 1; from = pos 0; length = 3 })
      (104 ∷ 105 ∷ 33 ∷ 0 ∷ [])
      []
      []
      1
      []
send-Delivered_example =
    send-Delivered (init (pos 0) 2) (init (pos 1) 4) (device 0) (device 1) Interrupt.init
      Interrupt.init destination 1 (pos 0) 3 (104 ∷ 105 ∷ 33 ∷ 0 ∷ []) [] [] [] [] refl refl
      (omega arith) (omega arith) (omega arith) (omega arith) (omega arith) (omega arith) refl refl
      refl refl
